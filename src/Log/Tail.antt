-- ===== src/Log/Tail.antt =====
-- Which lines `tail` sends.
use krustlet.Prelude.{
  ℕ, zero, suc, ◌-◌, ◌≤◌, ◌<◌, String, ◌<>◌, ◌≡◌, refl, sym, ap, subst, ◌∙◌, inl, inr, List, [],
  ◌∷◌, ◌++◌, map, arith, Bool-cases, ◌==◌, nat_eq, string_eq, length, length-append, Result, ok,
  drop,
}
use mathlib.Core.List.{append-nil, append_assoc}
use krustlet.Log.{
  LineRead, line, end, Channel, send, accept, pop_front, push_line, fill, send_all, read_tail,
  SendError,
}

-- The last `n` items of a list.
abbrev pub last {ℓ} : {A : Type ℓ} → ℕ → List A → List A
last n xs = drop (length xs - n) xs

abbrev pub sent_line : String → String
sent_line l = l <> "\n"

drop-cons-last {ℓ} :
    {A : Type ℓ} (k : ℕ) (xs : List A) (x : A)
    → k ≤ length xs
    → drop k (xs ++ x ∷ []) ≡ drop k xs ++ x ∷ []
drop-cons-last zero xs x h = refl
drop-cons-last (suc k) [] x h = absurd (omega arith)
drop-cons-last (suc k) (y ∷ xs) x h = drop-cons-last k xs x (omega arith)

pop_front-drop : (k : ℕ) (xs : List String) → pop_front (drop k xs) ≡ drop (suc k) xs
unfolding pop_front
pop_front-drop zero [] = refl
pop_front-drop zero (x ∷ xs) = refl
pop_front-drop (suc k) [] = refl
pop_front-drop (suc k) (x ∷ xs) = pop_front-drop k xs

drop-nil {ℓ} : {A : Type ℓ} (k : ℕ) → ◌≡◌ {A = List A} (drop k []) []
drop-nil zero = refl
drop-nil (suc k) = refl

length-drop {ℓ} : {A : Type ℓ} (k : ℕ) (xs : List A) → length (drop k xs) ≡ length xs - k
length-drop zero xs = omega arith
length-drop (suc k) [] = omega arith
length-drop (suc k) (x ∷ xs) = omega (arith, length-drop k xs)

push_line-last :
    (n : ℕ) (l : String) (seen : List String)
    → 0 < n
    → push_line n l (last n seen) ≡ last n (seen ++ l ∷ [])
unfolding push_line
push_line-last n l seen h = elim (Bool-cases (length (last n seen) == n)) [
  | inl e ↦
      let full : n ≤ length seen = ground (arith, e, length-drop (length seen - n) seen) in
      let more : suc (length seen - n) ≡ length (seen ++ l ∷ []) - n =
        omega (arith, full, h, length-append seen (l ∷ [])) in
      rw e (
        ap (λ (xs : List String). xs ++ l ∷ []) (pop_front-drop (length seen - n) seen)
        ∙ sym (drop-cons-last (suc (length seen - n)) seen l (omega arith))
        ∙ ap (λ (k : ℕ). drop k (seen ++ l ∷ [])) more)
  | inr e ↦
      let short : length seen < n = ground (arith, e, length-drop (length seen - n) seen) in
      let same : length seen - n ≡ length (seen ++ l ∷ []) - n =
        omega (arith, short, length-append seen (l ∷ [])) in
      rw e (
        sym (drop-cons-last (length seen - n) seen l (omega arith))
        ∙ ap (λ (k : ℕ). drop k (seen ++ l ∷ [])) same)
]

push_line_zero : (l : String) (seen : List String) → push_line 0 l seen ≡ seen ++ l ∷ []
unfolding push_line pop_front
push_line_zero l [] = refl
push_line_zero l (x ∷ seen) = ground arith

-- The lines that the buffer holds when it has seen some.
abbrev pub kept : ℕ → List String → List String
kept zero seen = seen
kept (suc n) seen = last (suc n) seen

push_line-kept :
    (n : ℕ) (l : String) (seen : List String)
    → push_line n l (kept n seen) ≡ kept n (seen ++ l ∷ [])
push_line-kept zero l seen = push_line_zero l seen
push_line-kept (suc n) l seen = push_line-last (suc n) l seen (omega arith)

kept-nil : (n : ℕ) → kept n [] ≡ []
kept-nil zero = refl
kept-nil (suc n) = drop-nil (0 - suc n)

fill-lines :
    (n : ℕ) (ls seen : List String) (rest : List LineRead)
    → fill n (map line ls ++ end ∷ rest) (kept n seen) ≡ (rest, ok (kept n (seen ++ ls)))
unfolding fill
fill-lines n [] seen rest = rw (append-nil seen)
fill-lines n (l ∷ ls) seen rest =
    ap (fill n (map line ls ++ end ∷ rest)) (push_line-kept n l seen)
    ∙ fill-lines n ls (seen ++ l ∷ []) rest
    ∙ ap (λ (xs : List String). (rest, ok (kept n xs))) (append_assoc seen (l ∷ []) ls)

pub send_all-sent :
    (ls sent : List String)
    → send_all ls (record { sent = sent; answers = [] })
      ≡ (record { sent = sent ++ map sent_line ls; answers = [] }, ok tt)
unfolding send_all send accept
send_all-sent [] sent = rw (append-nil sent)
send_all-sent (l ∷ ls) sent =
    send_all-sent ls (sent ++ sent_line l ∷ [])
    ∙ ap (λ (xs : List String). (record { sent = xs; answers = [] }, ok tt))
        (append_assoc sent (sent_line l ∷ []) (map sent_line ls))

-- With a client that accepts every send, the buffer of `tail n` sends the last `n` lines up to the end of the log,
-- in their order, and all of them where there are fewer; but for `n = 0` it sends every line. The reads
-- after the end are left.
pub tail-last :
    (n : ℕ) (ls sent : List String) (rest : List LineRead)
    → read_tail n (map line ls ++ end ∷ rest) (record { sent = sent; answers = [] })
      ≡ (rest, (record { sent = sent ++ map sent_line (kept n ls); answers = [] }, ok tt))
unfolding read_tail
tail-last n ls sent rest =
    rw
      (subst (λ (xs : List String). fill n (map line ls ++ end ∷ rest) xs ≡ (rest, ok (kept n ls)))
        (kept-nil n) (fill-lines n ls [] rest))
      (ap (λ (r : Channel × Result SendError (Unit {0})). (rest, r))
        (send_all-sent (kept n ls) sent))
