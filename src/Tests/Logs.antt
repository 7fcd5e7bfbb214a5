-- ===== src/Tests/Logs.antt =====
-- Runs of the theorems on logs.
use krustlet.Prelude.{
  String, ◌≡◌, true, none, some, List, [], ◌∷◌, ◌++◌, map, arith, nat_eq, string_eq, take, ok, ltb,
}
use krustlet.Log.{following, returned, stream}
use krustlet.Log.Tail.{sent_line, kept}
use krustlet.Log.Order.{reads_of, concat, leaves_after, stream-follows, stream-leaves_after}

abbrev three_lines : List String
three_lines = "a" ∷ ("b" ∷ ("c" ∷ []))

stream-follows_example :
    stream
      (λ n. ltb n 1000)
      1
      (record { tail = some 1; follow = true })
      (reads_of (three_lines ∷ (("d" ∷ []) ∷ [])))
      (record { sent = []; answers = [] })
    ≡ ok (
      record {
        sent = map sent_line (kept 1 three_lines ++ concat (("d" ∷ []) ∷ []));
        answers = [];
      },
      following,
    )
stream-follows_example = stream-follows (λ n. ltb n 1000) 1 three_lines (("d" ∷ []) ∷ [])

stream-leaves_after_example :
    stream
      (λ n. ltb n 1000)
      1
      (record { tail = none; follow = true })
      (reads_of (three_lines ∷ (("d" ∷ ("e" ∷ [])) ∷ [])))
      (record { sent = []; answers = leaves_after 4 })
    ≡ ok (
      record {
        sent = map sent_line (take 4 (three_lines ++ concat (("d" ∷ ("e" ∷ [])) ∷ [])));
        answers = [];
      },
      returned (ok tt),
    )
stream-leaves_after_example =
    stream-leaves_after (λ n. ltb n 1000) 1 4 three_lines (("d" ∷ ("e" ∷ [])) ∷ []) (omega arith)
      (omega arith)
