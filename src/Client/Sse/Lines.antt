-- ===== src/Client/Sse/Lines.antt =====
-- The client finds the payloads that the server put in the stream.
use solo_rt.Prelude.{
  ℕ, ◌≡◌, refl, sym, ap, subst, ◌∙◌, inl, inr, false, ◌||◌, List, [], ◌∷◌, ◌++◌, append_assoc, map,
  ◌==◌, List-cases, Bool-cases, arith,
}
use mathlib.Core.List.{flatten}
use solo_rt.Prelude.Sort.{All}
use solo_rt.Cache.BlockHash.{Text}
use solo_rt.Core.Tokenizer.{is_space, lstrip, rstrip, strip, join_lines}
use solo_rt.Api.Json.{codes}
use solo_rt.Api.Json.Loads.{behind_first, behind_literal}
use solo_rt.Api.Events.{sse_event}
use solo_rt.Client.Sse.{lines, strip_end, data_of, payloads_from, iter_sse_payloads}

-- No line ends in the text.
abbrev pub IsLine : Text → Type 0
IsLine t = All (λ c. (c == 10) ≡ false) t

-- A line with no blank at either end.
pub record IsPayload (p : Text) : Type 0 where
  pub line : IsLine p
  pub left : lstrip p ≡ p
  pub right : rstrip p ≡ p

lines_lem : (t rest : Text) → IsLine t → lines (t ++ 10 ∷ rest) ≡ (t ++ 10 ∷ []) ∷ lines rest
unfolding lines
lines_lem [] rest h = refl
lines_lem (c ∷ cs) rest h = rw (h.0, lines_lem cs rest h.1) refl

strip_end_newline : (t : Text) → strip_end (t ++ 10 ∷ []) ≡ strip_end t
unfolding strip_end
strip_end_newline [] = refl
strip_end_newline (c ∷ cs) = rw (strip_end, strip_end_newline cs) refl

kept : (c : ℕ) → is_space c ≡ false → ((c == 13) || (c == 10)) ≡ false
unfolding is_space
kept c h = ground arith

strip_end_lem : (t : Text) → rstrip t ≡ t → strip_end t ≡ t
unfolding strip_end rstrip
strip_end_lem [] h = refl
strip_end_lem (c ∷ cs) h = elim (List-cases (rstrip cs)) [
  | inl e ↦ elim (Bool-cases (is_space c)) [
    | inl b ↦ let none_left : [] ≡ c ∷ cs = rw (rstrip, e, b) at h in absurd (cc)
    | inr b ↦
        let alone : c ∷ [] ≡ c ∷ cs = rw (rstrip, e, b) at h in
        subst (λ l. strip_end (c ∷ l) ≡ c ∷ l) (ap behind_first alone) (rw (kept c b) refl)
  ]
  | inr (d, ds, e) ↦
      let more : c ∷ d ∷ ds ≡ c ∷ cs = rw (rstrip, e) at h in
      let tail : d ∷ ds ≡ cs = ap behind_first more in
      let same : strip_end cs ≡ d ∷ ds = strip_end_lem cs (e ∙ tail) ∙ sym tail in
      rw (strip_end, same) more
]

-- The line that an event writes.
abbrev pub data_line : Text → Text
data_line p = codes "data: " ++ p

strip_end-data_line : (p : Text) → strip_end p ≡ p → strip_end (data_line p) ≡ data_line p
unfolding strip_end
strip_end-data_line [] h = refl
strip_end-data_line (c ∷ cs) h = rw (strip_end, h) refl

strip_blank : (p : Text) → lstrip p ≡ p → rstrip p ≡ p → strip (32 ∷ p) ≡ p
unfolding strip lstrip
strip_blank p l r = rw (l, r) refl

pub lines-sse_event :
    (p rest : Text)
    → IsLine p
    → lines (sse_event p ++ rest) ≡ (data_line p ++ 10 ∷ []) ∷ (10 ∷ []) ∷ lines rest
unfolding sse_event
lines-sse_event p rest h =
    ap (λ t. lines (codes "data: " ++ t)) (append_assoc p (10 ∷ 10 ∷ []) rest)
    ∙ lines_lem (data_line p) (10 ∷ rest) (refl, (refl, (refl, (refl, (refl, (refl, h))))))
    ∙ unfold lines in refl

one_event :
    (p : Text) (raw_lines : List Text)
    → IsPayload p
    → payloads_from [] ((data_line p ++ 10 ∷ []) ∷ (10 ∷ []) ∷ raw_lines)
      ≡ p ∷ payloads_from [] raw_lines
unfolding payloads_from join_lines data_of behind_literal
one_event p raw_lines h =
    let read : strip_end (data_line p ++ 10 ∷ []) ≡ data_line p =
      strip_end_newline (data_line p) ∙ strip_end-data_line p (strip_end_lem p h.right) in
    rw (read, strip_blank p h.left h.right) (unfold strip_end in refl)

-- Payloads of one line each that neither begin nor end with white space come back from the lines of
-- their events, in order and nothing else.
pub iter_sse_payloads-sse_event :
    (payloads : List Text)
    → All IsPayload payloads
    → iter_sse_payloads (lines (flatten (map sse_event payloads))) ≡ payloads
unfolding iter_sse_payloads flatten
iter_sse_payloads-sse_event [] h = unfold payloads_from lines in refl
iter_sse_payloads-sse_event (p ∷ payloads) h =
    ap (payloads_from []) (lines-sse_event p (flatten (map sse_event payloads)) h.0.line)
    ∙ one_event p (lines (flatten (map sse_event payloads))) h.0
    ∙ ap (λ l. p ∷ l) (iter_sse_payloads-sse_event payloads h.1)
