-- ===== src/Index/Sherman/Internal/Tests.antt =====
-- The internal pages at a page of three records of at most four.
use faunus.Index.Sherman.Internal.Routing.{keys, page_slot, get_leaf_from_cache_entry-next_level}
use faunus.Index.Sherman.Internal.Split.{route, route-insert_to_internal}
use faunus.Index.Sherman.Internal.{
  next_level, get_leaf_from_cache_entry, insert_to_internal, failed, InternalOutcome, go_right,
  write_back, write_split,
}
use faunus.Index.Sherman.{Header, no_entry, InternalPage}
use faunus.Index.Slot.{Ascending}
use faunus.Prelude.{
  fill, ℕ, zero, suc, ◌≡◌, refl, ◌&&◌, [], ◌∷◌, ltb, leb, ◌==◌, if◌then◌else◌, arith, Bool, true,
  false, ◌≢◌, ap,
}
use faunus.Rdma.GlobalAddress.{GlobalAddress, null}

abbrev child : ℕ → GlobalAddress
child n = n

abbrev full_header : Header
full_header = record {
  leftmost_ptr = child 1;
  sibling_ptr = child 9;
  level = 1;
  count = 3;
  lowest = 5;
  highest = 90;
}

abbrev example : InternalPage
example = record {
  embedding_lock = 0;
  front_version = 4;
  hdr = full_header;
  records =
      record { key = 10; ptr = child 2 }
      ∷ record { key = 20; ptr = child 3 }
      ∷ record { key = 30; ptr = child 4 }
      ∷ no_entry
      ∷ [];
  rear_version = 4;
}

example-Ascending : Ascending 3 (keys example)
example-Ascending zero zero h l = absurd (omega arith)
example-Ascending zero (suc zero) h l = omega arith
example-Ascending zero (suc (suc zero)) h l = omega arith
example-Ascending zero (suc (suc (suc j))) h l = absurd (omega arith)
example-Ascending (suc zero) zero h l = absurd (omega arith)
example-Ascending (suc zero) (suc zero) h l = absurd (omega arith)
example-Ascending (suc zero) (suc (suc zero)) h l = omega arith
example-Ascending (suc zero) (suc (suc (suc j))) h l = absurd (omega arith)
example-Ascending (suc (suc i)) j h l = absurd (omega arith)

get_leaf_from_cache_entry-next_level_example :
    get_leaf_from_cache_entry 5 90 example 25
    ≡ (if leb 5 25 && ltb 25 90 then next_level example 25 else null)
get_leaf_from_cache_entry-next_level_example =
    get_leaf_from_cache_entry-next_level 5 90 example 25 (omega arith)

has_failed : InternalOutcome → Bool
has_failed (go_right sibling) = false
has_failed (write_back page) = false
has_failed (write_split parts) = false
has_failed failed = true

goes_well : has_failed (insert_to_internal 4 example 77 25 (child 7) (child 8)) ≡ false
unfolding insert_to_internal has_failed
goes_well = refl

holds : insert_to_internal 4 example 77 25 (child 7) (child 8) ≢ failed
unfolding has_failed
holds e = let same = ap has_failed e in let fine = goes_well in absurd (cc)

route-insert_to_internal_example :
    route (insert_to_internal 4 example 77 25 (child 7) (child 8)) 27 ≡ (
      if leb 25 27 && (page_slot example 27 == page_slot example 25)
      then child 7
      else next_level example 27)
route-insert_to_internal_example =
    route-insert_to_internal 4 example 77 25 (child 7) (child 8) 27 (omega arith) refl (omega arith)
      (omega arith) example-Ascending (omega arith) holds

-- Searches of the page.
searches :
    (next_level example 9 ≡ child 1)
    × (next_level example 10 ≡ child 2)
    × (next_level example 77 ≡ child 4)
unfolding next_level
searches = (refl, refl, refl)

-- The fourth record fills the page: the halves have two records and one, and 20 stands between.
fills :
    (route (insert_to_internal 4 example 77 25 (child 7) (child 8)) 27 ≡ child 7)
    × (route (insert_to_internal 4 example 77 25 (child 7) (child 8)) 24 ≡ child 3)
    × (route (insert_to_internal 4 example 77 95 (child 7) (child 8)) 24 ≡ child 9)
unfolding insert_to_internal next_level fill
fills = (refl, refl, refl)
