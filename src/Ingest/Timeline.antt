-- ===== src/Ingest/Timeline.antt =====
-- `timeline_weighted` of src/ingest/buckets.rs: occurrences for each window and build. The parser of a
-- time stamp is an argument, and windows stand for the texts that they are printed as. A sum of
-- `u64` counts wraps, as in a release build.
pub mod Totals
use reproit_cloud.Prelude.{
  if◌then◌else◌, ℕ, suc, ◌+◌, ◌-◌, ◌*◌, ◌/◌, ◌%◌, ◌^◌, max, Option, none, some, List, [], ◌∷◌,
}
use reproit_cloud.Prelude.Int.{ℤ, pos, negsuc, int_ord, max_int}
use reproit_cloud.Prelude.Order.{Ord, ord_pair}
use reproit_cloud.Text.{Text, lit}
use reproit_cloud.Text.Compare.{text_ord}

pub record Occurrence : Type 0 where
  pub at : Text
  pub build : Option Text
  pub count : ℕ

-- `*map.entry(key).or_default() += count`, of a map in the order of its keys.
unfoldable pub add_count : {K : Type 0} ⦃o : Ord K⦄ → K → ℕ → List (K × ℕ) → List (K × ℕ)
add_count key count [] = (key, count) ∷ []
add_count ⦃o⦄ key count ((k, n) ∷ counts) =
    let rest = add_count key count counts in
    if o.lt key k
    then (key, count) ∷ (k, n) ∷ counts
    else if o.eq k key
    then (k, (n + count) % 2 ^ 64) ∷ counts
    else (k, n) ∷ rest

-- `epoch.div_euclid(window_secs) * window_secs`
unfoldable pub window_start : ℤ → ℕ → ℤ
window_start (pos n) secs = pos (n / secs * secs)
window_start (negsuc n) secs = negsuc (suc (n / secs) * secs - 1)

abbrev pub or_epoch : Option ℤ → ℤ
or_epoch none = pos 0
or_epoch (some epoch) = epoch

abbrev pub or_unknown : Option Text → Text
or_unknown none = lit "unknown"
or_unknown (some build) = build

-- `window_secs.max(1)`, which is positive.
abbrev pub at_least_one : ℤ → ℕ
at_least_one (pos n) = max n 1
at_least_one (negsuc n) = 1

abbrev pub Cell : Type 0
Cell = ℤ × Text

instance abbrev pub cell_ord : Ord Cell
cell_ord = ord_pair int_ord text_ord

pub record Timeline : Type 0 where
  pub cells : List (Cell × ℕ)
  pub total : List (ℤ × ℕ)

abbrev pub no_timeline : Timeline
no_timeline = record { cells = []; total = [] }

unfoldable pub window_of : (Text → Option ℤ) → ℕ → Occurrence → ℤ
unfolding window_start
window_of parse_epoch secs occ = window_start (or_epoch (parse_epoch occ.at)) secs

unfoldable pub add_all : (Text → Option ℤ) → ℕ → List Occurrence → Timeline → Timeline
unfolding window_of add_count
add_all parse_epoch secs [] t = t
add_all parse_epoch secs (occ ∷ occurrences) t =
    let win = window_of parse_epoch secs occ in
    add_all parse_epoch secs occurrences (record {
      cells = add_count (win, or_unknown occ.build) occ.count t.cells;
      total = add_count win occ.count t.total;
    })

unfoldable pub timeline_weighted : (Text → Option ℤ) → List Occurrence → ℤ → Timeline
unfolding add_all
timeline_weighted parse_epoch occurrences window_secs =
    add_all parse_epoch (at_least_one window_secs) occurrences no_timeline

abbrev pub once : List (Text × Option Text) → List Occurrence
once [] = []
once ((at, build) ∷ occ) = record { at = at; build = build; count = 1 } ∷ once occ

unfoldable pub timeline : (Text → Option ℤ) → List (Text × Option Text) → ℤ → Timeline
unfolding timeline_weighted
timeline parse_epoch occ window_secs = timeline_weighted parse_epoch (once occ) window_secs
