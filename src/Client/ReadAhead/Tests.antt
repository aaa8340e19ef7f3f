-- ===== src/Client/ReadAhead/Tests.antt =====
-- Readahead at concrete offsets.
use alloyfs.Base.{◌≡◌, refl, true, false, none, [], ◌∷◌, nat_eq}
use alloyfs.Base.Table.{get, insert}
use alloyfs.Client.ReadAhead.{
  new_readahead, observe, missing, absent, retain_block, find_block, retained, push_recent, put,
}

second_read_prefetches : (observe (observe new_readahead 0 4096).0 4096 4096).1 ≡ true
unfolding observe new_readahead
second_read_prefetches = refl

first_read_does_not : (observe new_readahead 0 4096).1 ≡ false
unfolding observe new_readahead
first_read_does_not = refl

fifth_block_drops_the_first :
    retained
      (retain_block
        (retain_block
          (retain_block (retain_block (retain_block new_readahead 1 []) 2 []) 3 [])
          4
          [])
        5
        [])
      1
    ≡ none
unfolding retained retain_block find_block push_recent new_readahead
fifth_block_drops_the_first = refl

in_flight_not_missing : missing (put new_readahead 7 none) 6 9 ≡ 6 ∷ 8 ∷ []
unfolding missing absent put new_readahead get insert
in_flight_not_missing = refl
