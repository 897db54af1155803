-- ===== src/Logger.antt =====
-- common/src/logger.cpp: the one logger of a program, as what it has written to its file. The
-- timestamp and the name of the thread are given, and so is whether the file can be opened. The
-- mutex makes each call a step of its own.
use minimal_sip_proxy_sip_cl.Base.{
  Bool, true, false, Option, none, some, List, [], ◌∷◌, ◌++◌, Bytes, codes, is_empty, if◌then◌else◌,
}
use minimal_sip_proxy_sip_cl.Sip.Message.{SipMessage, serialize}
pub mod Appends

pub data LogLevel : Type 0 where
  debug info warn error : LogLevel

unfoldable pub level_name : LogLevel → Bytes
level_name debug = codes "DEBUG"
level_name info = codes "INFO"
level_name warn = codes "WARN"
level_name error = codes "ERROR"

pub record Logger : Type 0 where
  pub path : Bytes
  pub is_open : Bool
  pub written : Bytes

abbrev pub new_logger : Bytes → Bool → Logger
new_logger filename opened = record {
  path = codes "logs/" ++ filename;
  is_open = opened;
  written = [];
}

-- Logger::instance: the static local is `none` before the first call.
unfoldable pub instance_of : Bytes → Bool → Option Logger → Logger
instance_of filename opened (some logger) = logger
instance_of filename opened none =
    new_logger (if is_empty filename then codes "default.log" else filename) opened

-- "[" and the text and "] "
abbrev pub bracketed : Bytes → Bytes
bracketed s = codes "[" ++ (s ++ codes "] ")

-- A line is written and the file flushed, if it is open.
unfoldable pub write_line : Bytes → Logger → Logger
write_line line l =
    if l.is_open then record l { written = l.written ++ (line ++ codes "\n") } else l

abbrev pub thread_name : Bytes → Bytes
thread_name id = codes "Thread-" ++ id

unfoldable pub log : Bytes → Bytes → Bytes → Bytes → Bytes → Bytes → Logger → Logger
log timestamp thread component call_id state text l =
    write_line
      (bracketed timestamp
        ++ (bracketed (thread_name thread)
            ++ (bracketed component
                ++ (bracketed (codes "CallID=" ++ call_id) ++ (bracketed state ++ text)))))
      l

unfoldable pub log_level : LogLevel → Bytes → Bytes → Bytes → Bytes → Logger → Logger
log_level level component call_id state text l =
    write_line
      (bracketed (level_name level)
        ++ (bracketed component ++ (bracketed call_id ++ (bracketed state ++ text))))
      l

unfoldable pub log_message : LogLevel → Bytes → Bytes → Bytes → SipMessage → Logger → Logger
log_message level component call_id state m l =
    write_line
      (bracketed (level_name level)
        ++ (bracketed component ++ (bracketed call_id ++ (bracketed state ++ serialize m))))
      l

unfoldable pub log_message_of_call : LogLevel → Bytes → Bytes → SipMessage → Logger → Logger
log_message_of_call level component call_id m l =
    write_line
      (bracketed (level_name level) ++ (bracketed component ++ (bracketed call_id ++ serialize m)))
      l

unfoldable pub separator : Logger → Logger
unfolding write_line
separator l = write_line [] l

-- A call of the logger.
pub data Entry : Type 0 where
  plain : Bytes → Bytes → Bytes → Bytes → Bytes → Bytes → Entry
  levelled : LogLevel → Bytes → Bytes → Bytes → Bytes → Entry
  with_message : LogLevel → Bytes → Bytes → Bytes → SipMessage → Entry
  of_call : LogLevel → Bytes → Bytes → SipMessage → Entry
  separated : Entry

unfoldable pub write : Entry → Logger → Logger
unfolding log log_level log_message log_message_of_call separator
write (plain timestamp thread component call_id state text) l =
    log timestamp thread component call_id state text l
write (levelled level component call_id state text) l =
    log_level level component call_id state text l
write (with_message level component call_id state m) l =
    log_message level component call_id state m l
write (of_call level component call_id m) l = log_message_of_call level component call_id m l
write separated l = separator l

-- The calls of the threads, in the order in which they get the mutex.
unfoldable pub write_all : List Entry → Logger → Logger
write_all [] l = l
write_all (e ∷ entries) l = write_all entries (write e l)
