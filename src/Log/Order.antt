-- ===== src/Log/Order.antt =====
-- What a client that follows a growing log gets, and how a client that leaves ends the stream.
use krustlet.Prelude.{
  if◌then◌else◌, capacity_overflow, ℕ, zero, suc, ◌-◌, ◌≤◌, ◌<◌, String, ◌≡◌, refl, sym, ap, ◌∙◌,
  inl, inr, true, none, some, List, [], ◌∷◌, ◌++◌, map, arith, ltb, Bool-cases, nat_eq, string_eq,
  length, take, length-append, Result, ok, err, Bool,
}
use mathlib.Core.List.{append-nil, append_assoc}
use krustlet.Log.{
  LineRead, line, end, Channel, SendError, channel_closed, Outcome, following, returned,
  returned_by, send, accept, stream_to_end, follow_rounds, first_part, stream, tail, then_follow,
}
use krustlet.Log.Tail.{sent_line, kept, tail-last}

-- A log that is written in parts: the reader reaches the end of what is written after each.
abbrev pub reads_of : List (List String) → List LineRead
reads_of [] = []
reads_of (ls ∷ parts) = map line ls ++ end ∷ reads_of parts

abbrev pub concat : List (List String) → List String
concat [] = []
concat (ls ∷ parts) = ls ++ concat parts

-- The answers of a client that takes some messages and then leaves.
abbrev pub leaves_after : ℕ → List (Result SendError (Unit {0}))
leaves_after zero = err channel_closed ∷ []
leaves_after (suc k) = ok tt ∷ leaves_after k

map-append {ℓ κ} :
    {A : Type ℓ} {B : Type κ} (f : A → B) (xs ys : List A) → map f (xs ++ ys) ≡ map f xs ++ map f ys
map-append f [] ys = refl
map-append f (x ∷ xs) ys = ap (λ (zs : List _). f x ∷ zs) (map-append f xs ys)

stream_to_end-lines :
    (ls sent : List String) (rest : List LineRead)
    → stream_to_end (map line ls ++ end ∷ rest) (record { sent = sent; answers = [] })
      ≡ (rest, (record { sent = sent ++ map sent_line ls; answers = [] }, ok tt))
unfolding stream_to_end send accept
stream_to_end-lines [] sent rest = rw (append-nil sent)
stream_to_end-lines (l ∷ ls) sent rest =
    stream_to_end-lines ls (sent ++ sent_line l ∷ []) rest
    ∙ ap (λ (xs : List String). (rest, (record { sent = xs; answers = [] }, ok tt)))
        (append_assoc sent (sent_line l ∷ []) (map sent_line ls))

abbrev Streamed : Type 0
Streamed = List LineRead × (Channel × Result SendError (Unit {0}))

-- A round of `follow_rounds` from what it streamed on.
abbrev follow_on : ℕ → Streamed → Channel × Outcome
follow_on rounds p = elim p.1.1 [
  | ok _ ↦ follow_rounds rounds p.0 p.1.0
  | err e ↦ (p.1.0, returned_by e)
]

follow_rounds-suc :
    (rounds : ℕ) (reads : List LineRead) (c : Channel) {p : Streamed}
    → stream_to_end reads c ≡ p
    → follow_rounds (suc rounds) reads c ≡ follow_on rounds p
unfolding follow_rounds
follow_rounds-suc rounds reads c e = ap (follow_on rounds) e

follow_rounds-lines :
    (parts : List (List String)) (sent : List String)
    → follow_rounds (length parts) (reads_of parts) (record { sent = sent; answers = [] })
      ≡ (record { sent = sent ++ map sent_line (concat parts); answers = [] }, following)
unfolding follow_rounds
follow_rounds-lines [] sent = rw (append-nil sent)
follow_rounds-lines (ls ∷ parts) sent =
    follow_rounds-suc (length parts) (reads_of (ls ∷ parts)) _
      (stream_to_end-lines ls sent (reads_of parts))
    ∙ (follow_rounds-lines parts (sent ++ map sent_line ls)
        ∙ ap (λ (xs : List String). (record { sent = xs; answers = [] }, following))
            (append_assoc sent (map sent_line ls) (map sent_line (concat parts))
              ∙ ap (λ (xs : List String). sent ++ xs)
                  (sym (map-append sent_line ls (concat parts)))))

-- A client that asks for the last `n` lines and follows the log, and takes every message, gets those of
-- what is written when it comes (all of it where `n` is 0) and then, in order and once each, every line
-- that is written later; the stream goes on. Where there is no room for a buffer of `n` lines, the
-- stream panics.
pub stream-follows :
    (has_room : ℕ → Bool) (n : ℕ) (ls : List String) (parts : List (List String))
    → stream has_room
        (length parts)
        (record { tail = some n; follow = true })
        (reads_of (ls ∷ parts))
        (record { sent = []; answers = [] })
      ≡ (if has_room n
          then ok
              (record { sent = map sent_line (kept n ls ++ concat parts); answers = [] }, following)
          else err capacity_overflow)
unfolding stream first_part tail then_follow
stream-follows has_room n ls parts = elim (Bool-cases (has_room n)) [
  | inl e ↦ rw e (
      ap ok (
        ap (follow_on (length parts)) (tail-last n ls [] (reads_of parts))
        ∙ (follow_rounds-lines parts (map sent_line (kept n ls))
            ∙ ap (λ (xs : List String). (record { sent = xs; answers = [] }, following))
                (sym (map-append sent_line (kept n ls) (concat parts))))))
  | inr e ↦ rw e refl
]

-- A stream that ended with an open channel.
took :
    (rest : List LineRead) {j k : ℕ} {xs ys : List String}
    → j ≡ k
    → xs ≡ ys
    → ◌≡◌ {A = Streamed}
        (rest, (record { sent = xs; answers = leaves_after j }, ok tt))
        (rest, (record { sent = ys; answers = leaves_after k }, ok tt))
took rest e e' = cc

-- The client takes all these lines.
to_end_stays :
    (k : ℕ) (ls sent : List String) (rest : List LineRead)
    → length ls ≤ k
    → stream_to_end (map line ls ++ end ∷ rest) (record { sent = sent; answers = leaves_after k })
      ≡ (
        rest,
        (record { sent = sent ++ map sent_line ls; answers = leaves_after (k - length ls) }, ok tt),
      )
unfolding stream_to_end send accept
to_end_stays k [] sent rest h =
    let same : k ≡ k - 0 = omega arith in took rest same (sym (append-nil sent))
to_end_stays zero (l ∷ ls) sent rest h = absurd (omega arith)
to_end_stays (suc k) (l ∷ ls) sent rest h =
    let same : k - length ls ≡ suc k - suc (length ls) = omega arith in
    to_end_stays k ls (sent ++ sent_line l ∷ []) rest (omega arith)
    ∙ took rest same (append_assoc sent (sent_line l ∷ []) (map sent_line ls))

-- The client leaves before these lines are all sent.
to_end_leaves :
    (k : ℕ) (ls sent : List String) (reads : List LineRead)
    → k < length ls
    → (left : List LineRead) × (stream_to_end
          (map line ls ++ reads)
          (record { sent = sent; answers = leaves_after k })
        ≡ (
          left,
          (record { sent = sent ++ map sent_line (take k ls); answers = [] }, err channel_closed),
        ))
unfolding stream_to_end send accept
to_end_leaves k [] sent reads h = absurd (omega arith)
to_end_leaves zero (l ∷ ls) sent reads h = (map line ls ++ reads, rw (append-nil sent))
to_end_leaves (suc k) (l ∷ ls) sent reads h =
    let (left, e) = to_end_leaves k ls (sent ++ sent_line l ∷ []) reads (omega arith) in
    (
      left,
      e
          ∙ ap
              (λ (xs : List String).
                (left, (record { sent = xs; answers = [] }, err channel_closed)))
              (append_assoc sent (sent_line l ∷ []) (map sent_line (take k ls))),
    )

take-append-short {ℓ} :
    {A : Type ℓ} (k : ℕ) (xs ys : List A) → k < length xs → take k (xs ++ ys) ≡ take k xs
take-append-short k [] ys h = absurd (omega arith)
take-append-short zero (x ∷ xs) ys h = refl
take-append-short (suc k) (x ∷ xs) ys h =
    ap (λ (zs : List _). x ∷ zs) (take-append-short k xs ys (omega arith))

take-append-long {ℓ} :
    {A : Type ℓ} (k : ℕ) (xs ys : List A)
    → length xs ≤ k
    → xs ++ take (k - length xs) ys ≡ take k (xs ++ ys)
take-append-long k [] ys h = let same : k - 0 ≡ k = omega arith in ap (λ (j : ℕ). take j ys) same
take-append-long zero (x ∷ xs) ys h = absurd (omega arith)
take-append-long (suc k) (x ∷ xs) ys h =
    let same : suc k - suc (length xs) ≡ k - length xs = omega arith in
    ap (λ (j : ℕ). x ∷ (xs ++ take j ys)) same
    ∙ ap (λ (zs : List _). x ∷ zs) (take-append-long k xs ys (omega arith))

-- The result of a client that left after `k` lines of a log.
abbrev left_after : ℕ → List String → List String → Channel × Outcome
left_after k sent ls =
    (record { sent = sent ++ map sent_line (take k ls); answers = [] }, returned (ok tt))

follow_leaves :
    (rounds k : ℕ) (parts : List (List String)) (sent : List String)
    → length parts ≤ rounds
    → k < length (concat parts)
    → follow_rounds rounds (reads_of parts) (record { sent = sent; answers = leaves_after k })
      ≡ left_after k sent (concat parts)
unfolding follow_rounds returned_by
follow_leaves rounds k [] sent h few = absurd (omega arith)
follow_leaves zero k (ls ∷ parts) sent h few = absurd (omega arith)
follow_leaves (suc rounds) k (ls ∷ parts) sent h few = elim (Bool-cases (ltb k (length ls))) [
  | inl e ↦
      let now : k < length ls = ground (arith, e) in
      let (left, e') = to_end_leaves k ls sent (end ∷ reads_of parts) now in
      follow_rounds-suc rounds (reads_of (ls ∷ parts)) _ e'
      ∙ ap
          (λ (xs : List String).
            (record { sent = sent ++ map sent_line xs; answers = [] }, returned (ok tt)))
          (sym (take-append-short k ls (concat parts) now))
  | inr e ↦
      let enough : length ls ≤ k = ground (arith, e) in
      let later : k - length ls < length (concat parts) =
        omega (arith, few, enough, length-append ls (concat parts)) in
      follow_rounds-suc rounds (reads_of (ls ∷ parts)) _
        (to_end_stays k ls sent (reads_of parts) enough)
      ∙ (follow_leaves rounds (k - length ls) parts (sent ++ map sent_line ls) (omega arith) later
          ∙ ap (λ (xs : List String). (record { sent = xs; answers = [] }, returned (ok tt)))
              (append_assoc sent (map sent_line ls)
                  (map sent_line (take (k - length ls) (concat parts)))
                ∙ ap (λ (xs : List String). sent ++ xs)
                    (sym (map-append sent_line ls (take (k - length ls) (concat parts)))
                      ∙ ap (map sent_line) (take-append-long k ls (concat parts) enough))))
]

-- A client that follows a log from its first line and leaves after `k` messages, before the log has
-- ended, ends the stream without an error, however the lines are spread over the rounds: it got the
-- first `k` lines, in order.
pub stream-leaves_after :
    (has_room : ℕ → Bool) (rounds k : ℕ) (ls : List String) (parts : List (List String))
    → length parts ≤ rounds
    → k < length (ls ++ concat parts)
    → stream has_room rounds
        (record { tail = none; follow = true })
        (reads_of (ls ∷ parts))
        (record { sent = []; answers = leaves_after k })
      ≡ ok (
        record { sent = map sent_line (take k (ls ++ concat parts)); answers = [] },
        returned (ok tt),
      )
unfolding stream first_part then_follow follow_rounds returned_by
stream-leaves_after has_room rounds k ls parts h few =
    ap ok (follow_leaves (suc rounds) k (ls ∷ parts) [] (omega arith) few)
