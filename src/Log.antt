-- ===== src/Log.antt =====
-- crates/kubelet/src/log/mod.rs: streaming a container's log to a client. The log reader is the list
-- of what its `next_line` calls give; `hyper`'s channel is what it answers to each send.
pub mod Tail
pub mod Order
use krustlet.Prelude.{
  ℕ, zero, suc, ◌+◌, ◌-◌, ◌*◌, ◌≤◌, ◌<◌, min, String, ◌<>◌, ◌≡◌, refl, sym, ap, subst, ◌∙◌, ◌≢◌,
  ◌↔◌, ◌⊎◌, inl, inr, Bool, true, false, not, ◌&&◌, ◌||◌, Option, none, some, List, [], ◌∷◌, ◌++◌,
  map, arith, ltb, leb, if◌then◌else◌, Bool-cases, Option-cases, Result-cases, List-cases,
  some-injective, ok-injective, Eq, ◌==◌, nat_eq, string_eq, str_eq_iff, ==_refl, ==_ne, contains,
  length, get_elem?, take, length-append, keep_if, find, Result, ok, err, ◌>>=◌, ◌>>◌, Panic,
  capacity_overflow, overflow, nothing, bind-eq-ok, All,
}
use krustlet.Prelude.Dict.{
  Dict, keys, values, lookup, insert, remove, contains_key, extend, NodupKeys, lookup-nil,
  lookup-cons, lookup-insert, lookup-remove, lookup-extend,
}

-- A line, the end of what is written so far, or a failed read with its error's `Debug` text.
pub data LineRead : Type 0 where
  line : String → LineRead
  end : LineRead
  failed : String → LineRead

pub data SendError : Type 0 where
  channel_closed : SendError
  abnormal : String → SendError

-- What the client has got, and the answers to the sends to come; after them every send is accepted.
pub record Channel : Type 0 where
  pub sent : List String
  pub answers : List (Result SendError (Unit {0}))

-- The fields of `Options` that streaming reads.
pub record Options : Type 0 where
  pub tail : Option ℕ
  pub follow : Bool

unfoldable pub accept :
    String → List (Result SendError (Unit {0})) → Channel → Channel × Result SendError (Unit {0})
accept text [] c = (record c { sent = c.sent ++ text ∷ [] }, ok tt)
accept text (ok _ ∷ answers) c = (record { sent = c.sent ++ text ∷ []; answers = answers }, ok tt)
accept text (err e ∷ answers) c = (record c { answers = answers }, err e)

-- `Sender::send`
unfoldable pub send : String → Channel → Channel × Result SendError (Unit {0})
send text c = accept text c.answers c

-- What was sent of a failed read, and its error.
unfoldable pub report : String → Channel → Channel × Result SendError (Unit {0})
report e c =
    let (c', answer) = send ("Error reading from log: " <> e) c in (c', answer >> err (abnormal e))

unfoldable pub pop_front : List String → List String
pop_front [] = []
pop_front (x ∷ xs) = xs

-- A line goes to the back of the buffer, which first loses its front if it holds `n` lines.
unfoldable pub push_line : ℕ → String → List String → List String
push_line n l line_buf = (if length line_buf == n then pop_front line_buf else line_buf) ++ l ∷ []

-- The reading loop of `tail`: the reads that are left, and the buffer or the error.
unfoldable pub fill : ℕ → List LineRead → List String → List LineRead × Result String (List String)
fill n [] line_buf = ([], ok line_buf)
fill n (end ∷ reads) line_buf = (reads, ok line_buf)
fill n (failed e ∷ reads) line_buf = (reads, err e)
fill n (line l ∷ reads) line_buf = fill n reads (push_line n l line_buf)

unfoldable pub send_all : List String → Channel → Channel × Result SendError (Unit {0})
send_all [] c = (c, ok tt)
send_all (l ∷ lines) c =
    let (c', answer) = send (l <> "\n") c in
    elim answer [ ok _ ↦ send_all lines c' | err e ↦ (c', err e) ]

unfoldable pub read_tail :
    ℕ → List LineRead → Channel → List LineRead × (Channel × Result SendError (Unit {0}))
read_tail n reads c =
    let (left, filled) = fill n reads [] in
    (left, elim filled [ ok line_buf ↦ send_all line_buf c | err e ↦ report e c ])

-- `has_room` says for which `n` `VecDeque::with_capacity` does not panic.
unfoldable pub tail :
    (ℕ → Bool)
    → ℕ
    → List LineRead
    → Channel
    → Result Panic (List LineRead × (Channel × Result SendError (Unit {0})))
tail has_room n reads c = if has_room n then ok (read_tail n reads c) else err capacity_overflow

unfoldable pub stream_to_end :
    List LineRead → Channel → List LineRead × (Channel × Result SendError (Unit {0}))
stream_to_end [] c = ([], (c, ok tt))
stream_to_end (end ∷ reads) c = (reads, (c, ok tt))
stream_to_end (failed e ∷ reads) c = (reads, report e c)
stream_to_end (line l ∷ reads) c =
    let (c', answer) = send (l <> "\n") c in
    elim answer [ ok _ ↦ stream_to_end reads c' | err e ↦ (reads, (c', err e)) ]

-- `stream` has returned, or still follows the log.
pub data Outcome : Type 0 where
  returned : Result String (Unit {0}) → Outcome
  following : Outcome

-- A client that is gone is no error of `stream`.
unfoldable pub returned_by : SendError → Outcome
returned_by channel_closed = returned (ok tt)
returned_by (abnormal e) = returned (err e)

-- The loop of `follow`, watched for a number of rounds.
unfoldable pub follow_rounds : ℕ → List LineRead → Channel → Channel × Outcome
follow_rounds zero reads c = (c, following)
follow_rounds (suc rounds) reads c =
    let (left, (c', answer)) = stream_to_end reads c in
    elim answer [ ok _ ↦ follow_rounds rounds left c' | err e ↦ (c', returned_by e) ]

unfoldable pub first_part :
    (ℕ → Bool)
    → Option ℕ
    → List LineRead
    → Channel
    → Result Panic (List LineRead × (Channel × Result SendError (Unit {0})))
first_part has_room (some n) reads c = tail has_room n reads c
first_part has_room none reads c = ok (stream_to_end reads c)

-- From what the first part has streamed on.
unfoldable pub then_follow :
    ℕ → Options → List LineRead × (Channel × Result SendError (Unit {0})) → Channel × Outcome
then_follow rounds opts (left, (c', answer)) = elim answer [
  | ok _ ↦ if opts.follow then follow_rounds rounds left c' else (c', returned (ok tt))
  | err e ↦ (c', returned_by e)
]

unfoldable pub stream :
    (ℕ → Bool) → ℕ → Options → List LineRead → Channel → Result Panic (Channel × Outcome)
stream has_room rounds opts reads c =
    first_part has_room opts.tail reads c >>= λ streamed. ok (then_follow rounds opts streamed)
