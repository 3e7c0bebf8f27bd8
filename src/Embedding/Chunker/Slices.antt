-- ===== src/Embedding/Chunker/Slices.antt =====
-- Texts that are cut at an index, and put together again.
use docsmint.Prelude.{
  ℕ, zero, suc, ◌+◌, ◌-◌, ◌≤◌, ◌≡◌, refl, ap, sym, ◌∙◌, List, [], ◌∷◌, ◌++◌, length, take, drop,
  length-take, length-drop, take-drop, arith,
}
use docsmint.Embedding.Chunker.{slice}

pub length-slice : (start end : ℕ) (text : List ℕ) → length (slice start end text) ≤ end - start
length-slice start end text = omega (arith, length-take (end - start) (drop start text))

drop-nil : (n : ℕ) → drop {A = ℕ} n [] ≡ []
drop-nil zero = refl
drop-nil (suc n) = refl

pub drop-drop :
    (start n m : ℕ) (text : List ℕ) → m ≡ start + n → drop n (drop start text) ≡ drop m text
drop-drop zero n m text e = let same : n ≡ m = omega (arith, e) in rw same refl
drop-drop (suc start) n zero text e = absurd (omega arith)
drop-drop (suc start) n (suc m) [] e = drop-nil n
drop-drop (suc start) n (suc m) (c ∷ cs) e = drop-drop start n m cs (omega (arith, e))

pub slice-drop :
    (start end : ℕ) (text : List ℕ)
    → start ≤ end
    → slice start end text ++ drop end text ≡ drop start text
slice-drop start end text h =
    ap (λ l. slice start end text ++ l) (sym (drop-drop start (end - start) end text (omega arith)))
    ∙ take-drop (end - start) (drop start text)

take-snoc :
    (n : ℕ) (text : List ℕ) (c : ℕ) (rest : List ℕ)
    → drop n text ≡ c ∷ rest
    → take (suc n) text ≡ take n text ++ (c ∷ [])
take-snoc zero text c rest e = ap (take 1) e
take-snoc (suc n) [] c rest e = absurd (grind (arith, e))
take-snoc (suc n) (x ∷ xs) c rest e = ap (λ l. x ∷ l) (take-snoc n xs c rest e)

pub slice-snoc :
    (start end : ℕ) (text : List ℕ) (c : ℕ) (rest : List ℕ)
    → start ≤ end
    → drop end text ≡ c ∷ rest
    → slice start (end + 1) text ≡ slice start end text ++ (c ∷ [])
slice-snoc start end text c rest l e =
    let more : end + 1 - start ≡ suc (end - start) = omega (arith, l) in
    ap (λ n. take n (drop start text)) more
    ∙ take-snoc (end - start) (drop start text) c rest
        (drop-drop start (end - start) end text (omega (arith, l)) ∙ e)

pub length-slice_inside :
    (start end : ℕ) (text : List ℕ)
    → start ≤ end
    → end ≤ length text
    → length (slice start end text) ≡ end - start
length-slice_inside start end text l h =
    omega (arith, l, h, length-take (end - start) (drop start text), length-drop start text)

pub drop-step :
    (n : ℕ) (text : List ℕ) (c : ℕ) (rest : List ℕ)
    → drop n text ≡ c ∷ rest
    → drop (n + 1) text ≡ rest
drop-step n text c rest e = sym (drop-drop n 1 (n + 1) text refl) ∙ ap (drop 1) e
