-- ===== src/Config/Labels.antt =====
-- The labels of the command line, written out and read back.
use krustlet.Prelude.{
  String, ◌<>◌, ◌≡◌, refl, ap, ◌∙◌, false, some, [], ◌∷◌, map, arith, ◌==◌, nat_eq, string_eq,
  str_eq_iff, ==_ne, All,
}
use krustlet.Prelude.Dict.{Dict, lookup, NodupKeys, lookup-nil, lookup-extend}
use text.Mathlib.TextLemmas.{append-eq-nil_iff, nil-append, cons-append}
use krustlet.Prelude.Text.{has_char, split_once, split_once-join}
use krustlet.Config.{unwrap_or}
use krustlet.Config.Sources.{Opts, split_one_label, split_labels, labels_of, from_opts}

-- How a label is written: `key=value`.
abbrev pub print_label : String × String → String
print_label (key, val) = key <> ("=" <> val)

-- A key that can be written: not empty, and without the sign.
abbrev pub IsLabelKey : String → Type 0
IsLabelKey key = ((key == "") ≡ false) × (has_char b'=' key ≡ false)

split_once-print_label :
    (key val : String)
    → has_char b'=' key ≡ false
    → split_once b'=' (key <> ("=" <> val)) ≡ some (key, val)
split_once-print_label key val no_sign =
    ap (λ (s : String). split_once b'=' (key <> s))
      (cons-append "=" "" val ∙ ap (String.◌∷◌ "=") (nil-append val))
    ∙ split_once-join "=" key val no_sign

print_label-nonempty :
    (key val : String) → (key == "") ≡ false → (key <> ("=" <> val) == "") ≡ false
print_label-nonempty key val some_key = ==_ne (key <> ("=" <> val)) "" (λ h.
    let empty : key ≡ "" = (append-eq-nil_iff.0 h).0 in
    ground (arith, some_key, str_eq_iff key "", empty))

split_one_label-print_label :
    (key val : String) → IsLabelKey key → split_one_label (print_label (key, val)) ≡ some (key, val)
unfolding split_one_label
split_one_label-print_label key val (some_key, no_sign) =
    ground (
      arith,
      some_key,
      print_label-nonempty key val some_key,
      split_once-print_label key val no_sign,
    )

split_labels-print_labels :
    (d : Dict String String)
    → All (λ label. IsLabelKey label.0) d
    → split_labels (map print_label d) ≡ d
unfolding split_labels
split_labels-print_labels [] h = refl
split_labels-print_labels ((key, val) ∷ d) (h, hs) =
    ground (arith, split_one_label-print_label key val h, split_labels-print_labels d hs)

lookup-labels_of :
    (k : String) (d : Dict String String)
    → NodupKeys d
    → lookup k (unwrap_or [] (labels_of d)) ≡ lookup k d
unfolding labels_of
lookup-labels_of k [] u = refl
lookup-labels_of k (label ∷ d) u =
    ground (arith, lookup-extend k [] (label ∷ d) u, lookup-nil {V = String} k)

-- Labels that are written on the command line, one for each key, are the labels of the builder that
-- `from_opts` makes: there every key has its value and no other key has one. A key is not empty and has
-- no `=`; a value may have any.
pub from_opts-print_label :
    (opts : Opts) (d : Dict String String) (k : String)
    → opts.node_labels ≡ map print_label d
    → All (λ label. IsLabelKey label.0) d
    → NodupKeys d
    → lookup k (unwrap_or [] (from_opts opts).node_labels) ≡ lookup k d
unfolding from_opts labels_of
from_opts-print_label opts d k e h u =
    ap (λ ls. lookup k (unwrap_or [] (labels_of (split_labels ls)))) e
    ∙ ap (λ pairs. lookup k (unwrap_or [] (labels_of pairs))) (split_labels-print_labels d h)
    ∙ lookup-labels_of k d u
