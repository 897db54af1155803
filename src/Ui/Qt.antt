-- ===== src/Ui/Qt.antt =====
-- What the window uses of Qt's strings. Qt is not a part of the repository: its type of strings and
-- the operations on it are given.
use minimal_sip_proxy_sip_cl.Base.{ℕ, Bool, Option, ℤ, Bytes}

pub record Qt : Type 1 where
  pub QString : Type 0
  -- A literal, by its code points.
  pub text : Bytes → QString
  pub from_std_string : Bytes → QString
  pub to_std_string : QString → Bytes
  pub trimmed : QString → QString
  pub is_empty : QString → Bool
  pub size : QString → ℕ
  -- indexOf of one character; `none` is -1.
  pub index_of : QString → ℕ → Option ℕ
  pub left : QString → ℕ → QString
  pub mid : QString → ℕ → QString
  pub append : QString → QString → QString
  pub equal : QString → QString → Bool
  -- startsWith with Qt::CaseInsensitive.
  pub starts_with_icase : QString → QString → Bool
  -- The next place marker is replaced.
  pub arg_int : QString → ℤ → QString
  pub arg : QString → QString → QString
