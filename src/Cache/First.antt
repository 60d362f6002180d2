-- ===== src/Cache/First.antt =====
-- Which message type `find1` finds.
use pkt.Common.{ℕ, ◌∙◌, some, ◌≡◌, refl, ap, true, false, List, [], ◌∷◌, All}
use mathlib.Core.List.{◌++◌}
use Prim.Native.String.{String}
use pkt.Cache.{
  Declarations, find1, find1_result, valid_tags_in, CachedVariable, Variables, Verdict, said,
  undefined, running, Search, found, not_found, failed, take_if, find1_loop,
}

-- The entry stands in the map, its test has said true, and those before it false.
abbrev pub IsFirst :
    (String → CachedVariable → Verdict) → Variables → String → CachedVariable → Type 0
IsFirst test variables type v =
    (before : Variables) × (behind : Variables) × (variables ≡ before ++ (type, v) ∷ behind)
    × All (λ entry. test entry.0 entry.1 ≡ said false) before
    × (test type v ≡ said true)

IsFirst-entry :
    (test : String → CachedVariable → Verdict) (variables : Variables) (t type : String)
    (w v : CachedVariable)
    → test t w ≡ said true
    → found t w ≡ found type v
    → IsFirst test ((t, w) ∷ variables) type v
IsFirst-entry test variables t type w v e same = ([], variables, cc, tt, cc)

IsFirst-behind :
    (test : String → CachedVariable → Verdict) (variables : Variables) (t type : String)
    (w v : CachedVariable)
    → test t w ≡ said false
    → IsFirst test variables type v
    → IsFirst test ((t, w) ∷ variables) type v
IsFirst-behind test variables t type w v e (before, behind, split, all, valid) =
    ((t, w) ∷ before, behind, ap (λ (m : Variables). (t, w) ∷ m) split, (e, all), valid)

IsFirst-step :
    (test : String → CachedVariable → Verdict) (variables : Variables) (t type : String)
    (w v : CachedVariable) (d : Verdict)
    → (find1_loop test variables ≡ found type v → IsFirst test variables type v)
    → test t w ≡ d
    → take_if t w d (find1_loop test variables) ≡ found type v
    → IsFirst test ((t, w) ∷ variables) type v
unfolding take_if
IsFirst-step test variables t type w v (said true) rest e h =
    IsFirst-entry test variables t type w v e h
IsFirst-step test variables t type w v (said false) rest e h =
    IsFirst-behind test variables t type w v e (rest h)
IsFirst-step test variables t type w v undefined rest e h = cc h
IsFirst-step test variables t type w v running rest e h = cc h

-- The loop of `find1` finds the first entry whose tags are valid: the entry stands in the map, its
-- test has said true, and the tests of all entries before it have said false.
pub find1_loop-IsFirst :
    (test : String → CachedVariable → Verdict) (variables : Variables) (type : String)
    (v : CachedVariable)
    → find1_loop test variables ≡ found type v
    → IsFirst test variables type v
unfolding find1_loop
find1_loop-IsFirst test [] type v e = cc
find1_loop-IsFirst test ((t, w) ∷ variables) type v e =
    IsFirst-step test variables t type w v (test t w) (find1_loop-IsFirst test variables type v)
      refl e

-- If `find1` reports that it has found a variable, the map is as before, and the variable is that of
-- the first entry for which `validTags` says true: it says false for all entries before that one.
pub find1-IsFirst :
    (declarations : Declarations) (variables variables' : Variables) (fuel : ℕ) (packet : List ℕ)
    (v : CachedVariable)
    → find1 declarations variables fuel packet ≡ some (variables', v, true)
    → (variables' ≡ variables)
      × ((type : String) × IsFirst
            (λ type w. valid_tags_in declarations variables fuel type w packet)
            variables
            type
            v)
unfolding find1 find1_result
find1-IsFirst declarations variables variables' fuel packet v e = by_search _ refl e
  where
    test : String → CachedVariable → Verdict
    test type w = valid_tags_in declarations variables fuel type w packet

    by_search :
        (s : Search)
        → find1_loop test variables ≡ s
        → find1_result variables s ≡ some (variables', v, true)
        → (variables' ≡ variables) × ((type : String) × IsFirst test variables type v)
    by_search (found type w) same h =
        (cc h, (type, find1_loop-IsFirst test variables type v (same ∙ ap (found type) (cc h))))
    by_search not_found same h = cc h
    by_search failed same h = cc h
