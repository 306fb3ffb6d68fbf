-- ===== src/Config/Words/Ends.antt =====
-- src/config.c: the readers of words on memory of any content.
use newsbaoter.Common.{
  ℕ, zero, suc, ◌≤◌, ◌<◌, ◌≡◌, refl, ap, inl, inr, ◌⊎◌, Bool-cases, Option, none, some, [], ◌∷◌,
  ◌++◌, Bytes, length, arith,
}
use newsbaoter.Common.Run.{Run, ok, ◌>>=◌, Ends, Ends-ok, Ends->>=, Ends-out_of_bounds}
use newsbaoter.Config.Reader.{is_blank}
use newsbaoter.Config.Words.{
  Word, ends_word, pass_word, pass_blanks, end_word, get_line_word, c_string, copy_str, count_words,
  copy_strings, copy_strarr,
}

pass_word-Ends :
    (x : ℕ) (mem : Bytes)
    → Ends (pass_word (x ∷ mem)) (λ r. (length r.1 ≤ length mem) ⊎ (r.1 ≡ x ∷ mem))
unfolding pass_word
pass_word-Ends x mem = elim (Bool-cases (ends_word x)) [
  | inl ends ↦ rw ends (Ends-ok _ (inr refl))
  | inr on ↦ rw on (Ends->>= (pass_word mem) _ (pass_word-le mem) (λ r p. Ends-ok _ (inl p)))
]
  where
    pass_word-le : (mem : Bytes) → Ends (pass_word mem) (λ r. length r.1 ≤ length mem)
    pass_word-le [] = Ends-out_of_bounds
    pass_word-le (x ∷ mem) = elim (Bool-cases (ends_word x)) [
      | inl ends ↦ rw ends (Ends-ok _ (omega arith))
      | inr on ↦
          rw on (Ends->>= (pass_word mem) _ (pass_word-le mem) (λ r p. Ends-ok _ (omega arith)))
    ]

pass_blanks-Ends :
    (mem : Bytes) → Ends (pass_blanks mem) (λ r. (0 < length r.1) × (length r.1 ≤ length mem))
unfolding pass_blanks
pass_blanks-Ends [] = Ends-out_of_bounds
pass_blanks-Ends (x ∷ mem) = elim (Bool-cases (is_blank x)) [
  | inl blank ↦ rw blank (
      Ends->>= (pass_blanks mem) _ (pass_blanks-Ends mem)
        (λ r p. Ends-ok _ (p.0, omega (arith, p.1))))
  | inr stop ↦ rw stop (Ends-ok _ (omega arith, omega arith))
]

-- Memory is left behind a word, and less than before.
abbrev pub IsLess : Bytes → Option Word → Type 0
IsLess buf none = Unit
IsLess buf (some w) = (0 < length w.next) × (length w.next < length buf)

end_word-Ends :
    (c : ℕ) (mem word rest : Bytes)
    → (length rest ≤ length mem) ⊎ (rest ≡ suc c ∷ mem)
    → Ends (end_word word rest) (λ w. IsLess (suc c ∷ mem) (some w))
end_word-Ends c mem word [] h = Ends-out_of_bounds
end_word-Ends c mem word (zero ∷ rest) (inl le) = Ends-ok _ (omega arith, omega arith)
end_word-Ends c mem word (zero ∷ rest) (inr e) = cc
end_word-Ends c mem word (suc d ∷ rest) h =
    Ends->>= (pass_blanks rest) _ (pass_blanks-Ends rest)
      (λ r p. Ends-ok _ (p.0, omega (arith, p.1, fits h)))
  where
    fits :
        (length (suc d ∷ rest) ≤ length mem) ⊎ (suc d ∷ rest ≡ suc c ∷ mem)
        → length rest ≤ length mem
    fits (inl le) = omega arith
    fits (inr e) = omega (arith, ap length e)

pub get_line_word-Ends : (buf : Bytes) → Ends (get_line_word buf) (IsLess buf)
unfolding get_line_word
get_line_word-Ends [] = Ends-out_of_bounds
get_line_word-Ends (zero ∷ mem) = Ends-ok _ tt
get_line_word-Ends (suc c ∷ mem) =
    Ends->>= (pass_word (suc c ∷ mem)) _ (pass_word-Ends (suc c) mem) (λ r p.
      Ends->>= (end_word r.0 r.1) _ (end_word-Ends c mem r.0 r.1 p) (λ w q. Ends-ok (some w) q))

-- nothing more than that the code ends
abbrev pub Anything {ℓ} : {A : Type ℓ} → A → Type 0
Anything a = Unit

c_string-Ends : (mem : Bytes) → Ends (c_string mem) Anything
unfolding c_string
c_string-Ends [] = Ends-out_of_bounds
c_string-Ends (zero ∷ mem) = Ends-ok _ tt
c_string-Ends (suc c ∷ mem) = Ends->>= (c_string mem) _ (c_string-Ends mem) (λ r p. Ends-ok _ tt)

copy_strings-Ends : (n : ℕ) (v : Bytes) → Ends (copy_strings n v) Anything
unfolding copy_strings
copy_strings-Ends zero v = Ends-ok _ tt
copy_strings-Ends (suc n) v =
    Ends->>= (c_string v) _ (c_string-Ends v)
      (λ r p. Ends->>= (copy_strings n r.1) _ (copy_strings-Ends n r.1) (λ ss q. Ends-ok _ tt))

-- what follows a call of `get_line_word`
pub word-Ends {ℓ κ} :
    {R : Type ℓ} {Q : R → Type κ} (buf : Bytes) (stop : Run R) (go : Word → Run R)
    → Ends stop Q
    → ((w : Word) → IsLess buf (some w) → Ends (go w) Q)
    → Ends (get_line_word buf >>= λ v. elim v [ none ↦ stop | some w ↦ go w ]) Q
word-Ends {R} {Q} buf stop go h k = Ends->>= (get_line_word buf) _ (get_line_word-Ends buf) cases
  where
    cases : (v : Option Word) → IsLess buf v → Ends (elim v [ none ↦ stop | some w ↦ go w ]) Q
    cases none p = h
    cases (some w) p = k w p

count_words-Ends :
    (rounds : ℕ) (next : Bytes)
    → 0 < length next
    → length next ≤ rounds
    → Ends (count_words rounds next) Anything
unfolding count_words
count_words-Ends zero next some_bytes enough = absurd (omega arith)
count_words-Ends (suc rounds) next some_bytes enough =
    word-Ends next (ok (0, next))
      (λ w. count_words rounds w.next >>= λ r. ok (suc r.0, w.word ++ (w.gap ++ r.1)))
      (Ends-ok _ tt)
      (λ w p.
        Ends->>= (count_words rounds w.next) _
          (count_words-Ends rounds w.next p.0 (omega (arith, p.1))) (λ r q. Ends-ok _ tt))

pub copy_str-Ends : (next : Bytes) → Ends (copy_str next) Anything
unfolding copy_str
copy_str-Ends next =
    word-Ends next (ok none) (λ w. c_string (w.word ++ (w.gap ++ w.next)) >>= λ r. ok (some r.0))
      (Ends-ok _ tt)
      (λ w p.
        Ends->>= (c_string (w.word ++ (w.gap ++ w.next))) _
          (c_string-Ends (w.word ++ (w.gap ++ w.next))) (λ r q. Ends-ok _ tt))

pub copy_strarr-Ends : (next : Bytes) → 0 < length next → Ends (copy_strarr next) Anything
unfolding copy_strarr
copy_strarr-Ends next some_bytes =
    Ends->>= (count_words (length next) next) _
      (count_words-Ends (length next) next some_bytes (omega arith)) after_count
  where
    after_count :
        (r : ℕ × Bytes)
        → Unit {0}
        → Ends
            (elim r.0 [ zero ↦ ok none | suc n ↦ copy_strings (suc n) r.1 >>= λ ss. ok (some ss) ])
            Anything
    after_count (zero, mem) p = Ends-ok _ tt
    after_count (suc n, mem) p =
        Ends->>= (copy_strings (suc n) mem) _ (copy_strings-Ends (suc n) mem) (λ ss q. Ends-ok _ tt)
