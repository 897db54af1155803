-- ===== src/Logger/Appends.antt =====
-- The logger only appends, and what a call writes does not depend on what was written before.
use minimal_sip_proxy_sip_cl.Base.{
  ◌≡◌, refl, sym, ap, ◌∙◌, true, false, List, [], ◌∷◌, ◌++◌, append-nil, append_assoc, arith, Bytes,
  codes,
}
use minimal_sip_proxy_sip_cl.Logger.{
  Logger, new_logger, Entry, write_line, write, write_all, bracketed, thread_name, level_name,
}
use minimal_sip_proxy_sip_cl.Sip.Message.{serialize}

-- What a call writes to an open file.
abbrev pub text_of : Entry → Bytes
text_of e = (write e (new_logger [] true)).written

abbrev pub texts_of : List Entry → Bytes
texts_of [] = []
texts_of (e ∷ entries) = text_of e ++ texts_of entries

line_of : Entry → Bytes
line_of (Entry.plain timestamp thread component call_id state text) =
    bracketed timestamp
    ++ (bracketed (thread_name thread)
        ++ (bracketed component
            ++ (bracketed (codes "CallID=" ++ call_id) ++ (bracketed state ++ text))))
line_of (Entry.levelled level component call_id state text) =
    bracketed (level_name level)
    ++ (bracketed component ++ (bracketed call_id ++ (bracketed state ++ text)))
line_of (Entry.with_message level component call_id state m) =
    bracketed (level_name level)
    ++ (bracketed component ++ (bracketed call_id ++ (bracketed state ++ serialize m)))
line_of (Entry.of_call level component call_id m) =
    bracketed (level_name level) ++ (bracketed component ++ (bracketed call_id ++ serialize m))
line_of Entry.separated = []

writes_line : (e : Entry) (l : Logger) → write e l ≡ write_line (line_of e) l
unfolding write line_of
writes_line (Entry.plain timestamp thread component call_id state text) l = refl
writes_line (Entry.levelled level component call_id state text) l = refl
writes_line (Entry.with_message level component call_id state m) l = refl
writes_line (Entry.of_call level component call_id m) l = refl
writes_line Entry.separated l = refl

line_appends :
    (line : Bytes) (l : Logger)
    → l.is_open ≡ true
    → write_line line l
      ≡ record l { written = l.written ++ (write_line line (new_logger [] true)).written }
unfolding write_line
line_appends line l h = ground arith

line_ignored : (line : Bytes) (l : Logger) → l.is_open ≡ false → write_line line l ≡ l
unfolding write_line
line_ignored line l h = ground arith

write_appends :
    (e : Entry) (l : Logger)
    → l.is_open ≡ true
    → write e l ≡ record l { written = l.written ++ text_of e }
write_appends e l h =
    writes_line e l
    ∙ line_appends (line_of e) l h
    ∙ ap (λ (x : Logger). record l { written = l.written ++ x.written })
        (sym (writes_line e (new_logger [] true)))

-- On an open file, any calls of any threads leave in front what was written before, and append the
-- text of each call, one after the other in the order of the calls; the text of a call is what the
-- same call writes to an empty file.
pub write_all-open :
    (entries : List Entry) (l : Logger)
    → l.is_open ≡ true
    → write_all entries l ≡ record l { written = l.written ++ texts_of entries }
unfolding write_all
write_all-open [] l h = ap (λ s. record l { written = s }) (sym (append-nil l.written))
write_all-open (e ∷ entries) l h =
    let l' : Logger = record l { written = l.written ++ text_of e } in
    ap (write_all entries) (write_appends e l h)
    ∙ write_all-open entries l' h
    ∙ ap (λ s. record l { written = s }) (append_assoc l.written (text_of e) (texts_of entries))

-- Without a file nothing is written.
pub write_all-closed :
    (entries : List Entry) (l : Logger) → l.is_open ≡ false → write_all entries l ≡ l
unfolding write_all
write_all-closed [] l h = refl
write_all-closed (e ∷ entries) l h =
    let kept = writes_line e l ∙ line_ignored (line_of e) l h in
    ap (write_all entries) kept ∙ write_all-closed entries l h
