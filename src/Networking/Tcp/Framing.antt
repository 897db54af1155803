-- ===== src/Networking/Tcp/Framing.antt =====
-- The messages that a TCP connection delivers, against the bytes that it carries.
use minimal_sip_proxy_sip_cl.Base.{
  ℕ, zero, suc, ◌+◌, ◌<◌, ◌≤◌, ◌≡◌, refl, sym, ap, ◌∙◌, none, some, List, [], ◌∷◌, ◌++◌,
  append_assoc, append-nil, arith, Bytes, length, length-append, take, drop, take-drop, length-take,
  length-drop, find, Option-cases, inl, inr,
}
use minimal_sip_proxy_sip_cl.Base.Search.{find_within, find_longer, find-take}
use minimal_sip_proxy_sip_cl.Networking.Tcp.{end_of_headers, cut, receive_chunk, receive_loop}

-- All of a text at once.
abbrev pub cut_all : Bytes → List Bytes × Bytes
cut_all s = cut (suc (length s)) s

abbrev pub concat : List Bytes → Bytes
concat [] = []
concat (s ∷ ss) = s ++ concat ss

-- The first message of a text and the rest of it.
pub cut-none : (n : ℕ) (s : Bytes) → find end_of_headers s ≡ none → cut (suc n) s ≡ ([], s)
unfolding cut
cut-none n s e = rw (e, cut)

pub cut-some :
    (n pos : ℕ) (s : Bytes)
    → find end_of_headers s ≡ some pos
    → cut (suc n) s
      ≡ (take (pos + 4) s ∷ (cut n (drop (pos + 4) s)).0, (cut n (drop (pos + 4) s)).1)
unfolding cut
cut-some n pos s e = rw (e, cut)

module _ (s : Bytes) (pos : ℕ) (found : find end_of_headers s ≡ some pos) where
  inside : pos + 4 ≤ length s
  inside = omega (arith, find_within end_of_headers s pos found)

  shorter : length (drop (pos + 4) s) < length s
  shorter = omega (arith, length-drop {0} (pos + 4) s, inside)

pub cut_fuel : (n k : ℕ) (s : Bytes) → length s < n → length s < k → cut n s ≡ cut k s
cut_fuel zero k s h g = absurd (omega arith)
cut_fuel (suc n) zero s h g = absurd (omega arith)
cut_fuel (suc n) (suc k) s h g = elim (Option-cases (find end_of_headers s)) [
  | inl e ↦ cut-none n s e ∙ sym (cut-none k s e)
  | inr (pos, e) ↦
      let less = shorter s pos e in
      let same = cut_fuel n k (drop (pos + 4) s) (omega arith) (omega arith) in
      cut-some n pos s e
      ∙ ap (λ (c : List Bytes × Bytes). (take (pos + 4) s ∷ c.0, c.1)) same
      ∙ sym (cut-some k pos s e)
]

-- Two texts that are cut one after the other, what stayed of the first in front of the second.
abbrev then_cut : List Bytes × Bytes → Bytes → List Bytes × Bytes
then_cut c t = (c.0 ++ (cut_all (c.1 ++ t)).0, (cut_all (c.1 ++ t)).1)

drop_longer : (n : ℕ) (s t : Bytes) → n ≤ length s → drop n (s ++ t) ≡ drop n s ++ t
drop_longer zero s t h = refl
drop_longer (suc n) [] t h = absurd (omega arith)
drop_longer (suc n) (c ∷ s) t h = drop_longer n s t (omega arith)

take_longer : (n : ℕ) (s t : Bytes) → n ≤ length s → take n (s ++ t) ≡ take n s
take_longer zero s t h = refl
take_longer (suc n) [] t h = absurd (omega arith)
take_longer (suc n) (c ∷ s) t h = ap (◌∷◌ c) (take_longer n s t (omega arith))

cut-append :
    (n k : ℕ) (s t : Bytes)
    → length s < n
    → length (s ++ t) < k
    → cut k (s ++ t) ≡ then_cut (cut n s) t
cut-append zero k s t h g = absurd (omega arith)
cut-append (suc n) zero s t h g = absurd (omega arith)
cut-append (suc n) (suc k) s t h g = elim (Option-cases (find end_of_headers s)) [
  | inl e ↦ rw (cut-none n s e) (cut_fuel (suc k) (suc (length (s ++ t))) (s ++ t) g (omega arith))
  | inr (pos, e) ↦
      let less = shorter s pos e in
      let dropped = drop_longer (pos + 4) s t (inside s pos e) in
      cut-some k pos (s ++ t) (find_longer end_of_headers s t pos e)
      ∙ rw
          (
            take_longer (pos + 4) s t (inside s pos e),
            dropped,
            cut-append n k (drop (pos + 4) s) t (omega arith)
                (omega (arith, length-append s t, length-append (drop (pos + 4) s) t)),
          )
          (sym (ap (λ c. then_cut c t) (cut-some n pos s e)))
]

cut_rest : (n : ℕ) (s : Bytes) → length s < n → find end_of_headers (cut n s).1 ≡ none
cut_rest zero s h = absurd (omega arith)
cut_rest (suc n) s h = elim (Option-cases (find end_of_headers s)) [
  | inl e ↦ rw (cut-none n s e) e
  | inr (pos, e) ↦
      let less = shorter s pos e in
      rw (cut-some n pos s e) (cut_rest n (drop (pos + 4) s) (omega arith))
]

-- However the bytes of a connection are cut into chunks, the callbacks get the same messages, and
-- the same bytes stay behind, as if all bytes had come in one chunk.
pub receive_loop-concat :
    (chunks : List Bytes) (accumulator : Bytes)
    → find end_of_headers accumulator ≡ none
    → receive_loop accumulator chunks ≡ cut_all (accumulator ++ concat chunks)
unfolding receive_loop receive_chunk
receive_loop-concat [] acc e = sym (ap cut_all (append-nil acc) ∙ cut-none (length acc) acc e)
receive_loop-concat (chunk ∷ chunks) acc e =
    let now = cut_all (acc ++ chunk) in
    ap (λ (c : List Bytes × Bytes). (now.0 ++ c.0, c.1))
      (receive_loop-concat chunks now.1
        (cut_rest (suc (length (acc ++ chunk))) (acc ++ chunk) (omega arith)))
    ∙ sym (
        ap cut_all (sym (append_assoc acc chunk (concat chunks)))
        ∙ cut-append (suc (length (acc ++ chunk))) _ (acc ++ chunk) (concat chunks) (omega arith)
            (omega arith))

-- A message of the stream: it ends in its first blank line.
abbrev pub IsFrame : Bytes → Type 0
IsFrame m = (i : ℕ) × (find end_of_headers m ≡ some i) × (length m ≡ i + 4)

abbrev pub AllFrames : List Bytes → Type 0
AllFrames [] = Unit {0}
AllFrames (m ∷ ms) = IsFrame m × AllFrames ms

cut-AllFrames : (n : ℕ) (s : Bytes) → AllFrames (cut n s).0
cut-AllFrames zero s = unfold cut in tt
cut-AllFrames (suc n) s = elim (Option-cases (find end_of_headers s)) [
  | inl e ↦ rw (cut-none n s e) tt
  | inr (pos, e) ↦ rw (cut-some n pos s e) (
    (
      pos,
      find-take end_of_headers s pos (pos + 4) (omega arith) e,
      length-take (pos + 4) s (inside s pos e),
    ),
    cut-AllFrames n (drop (pos + 4) s),
  )
]

concat-cut : (n : ℕ) (s : Bytes) → concat (cut n s).0 ++ (cut n s).1 ≡ s
concat-cut zero s = unfold cut in refl
concat-cut (suc n) s = elim (Option-cases (find end_of_headers s)) [
  | inl e ↦ rw (cut-none n s e) refl
  | inr (pos, e) ↦ rw (cut-some n pos s e) (
      append_assoc (take (pos + 4) s) _ _
      ∙ ap (λ r. take (pos + 4) s ++ r) (concat-cut n (drop (pos + 4) s))
      ∙ take-drop (pos + 4) s)
]

-- However the bytes of a connection are cut into chunks: the messages that the callbacks get are,
-- in order and with what stays behind, all bytes of the connection; each message ends in its
-- first blank line; and no blank line stays behind.
pub receive_loop_lem :
    (chunks : List Bytes)
    → let received = receive_loop [] chunks in
      (concat received.0 ++ received.1 ≡ concat chunks)
      × AllFrames received.0
      × (find end_of_headers received.1 ≡ none)
receive_loop_lem chunks =
    let all = concat chunks in
    rw (receive_loop-concat chunks [] (unfold find in refl)) (
      concat-cut (suc (length all)) all,
      cut-AllFrames (suc (length all)) all,
      cut_rest (suc (length all)) all (omega arith),
    )
