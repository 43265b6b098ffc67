-- ===== src/VectorMap/ShortLanes.antt =====
-- The rows of lanes with 17 or 22 columns, of older files, which operator>> of
-- vector_map/lib/vector_map/vector_map.cpp also takes.
use autoware_ai_common.Base.{All, List, [], refl, some, suc, zero, ℕ, ◌∷◌, ◌≡◌}
use autoware_ai_common.VectorMap.Numbers.{Bytes, stoi-show_ℤ}
use autoware_ai_common.VectorMap.Columns.{Decimals, IsPart, join, split-join}
use autoware_ai_common.VectorMap.Lanes.{
  IsLane, Lane, lane_columns, lane_columns-IsPart, read_lane, read_linkwaid, read_rest,
}
use autoware_ai_common.Base.Int.{pos}

abbrev pub take : ℕ → List Bytes → List Bytes
take zero xs = []
take (suc n) [] = []
take (suc n) (x ∷ xs) = x ∷ take n xs

All-take : (P : Bytes → Type 0) (n : ℕ) (xs : List Bytes) → All P xs → All P (take n xs)
All-take P zero xs h = tt
All-take P (suc n) [] h = tt
All-take P (suc n) (x ∷ xs) h = (h.0, All-take P n xs h.1)

module _ {W : Type 0} ⦃t : Decimals W⦄ where
  abbrev pub without_link : Lane W → Lane W
  without_link x = record x { linkwaid = pos 0 }

  abbrev pub without_attributes : Lane W → Lane W
  without_attributes x = record x {
    lanetype = pos 0;
    limitvel = pos 0;
    refvel = pos 0;
    roadsecid = pos 0;
    lanecfgfg = pos 0;
    linkwaid = pos 0;
  }

  short_row :
      (x : Lane W)
      → IsLane x
      → read_lane (join b',' (take 17 (lane_columns x))) ≡ some (without_attributes x)
  unfolding read_lane read_rest read_linkwaid
  short_row x h =
      rw
        (
          split-join b',' (take 17 (lane_columns x))
              (All-take (IsPart b',') 17 (lane_columns x) (lane_columns-IsPart x h)),
          stoi-show_ℤ x.lnid h.0,
          stoi-show_ℤ x.did h.1,
          stoi-show_ℤ x.blid h.2,
          stoi-show_ℤ x.flid h.3,
          stoi-show_ℤ x.bnid h.4,
          stoi-show_ℤ x.fnid h.5,
          stoi-show_ℤ x.jct h.6,
          stoi-show_ℤ x.blid2 h.7,
          stoi-show_ℤ x.blid3 h.8,
          stoi-show_ℤ x.blid4 h.9,
          stoi-show_ℤ x.flid2 h.10,
          stoi-show_ℤ x.flid3 h.11,
          stoi-show_ℤ x.flid4 h.12,
          stoi-show_ℤ x.clossid h.13,
          h.14.read,
          stoi-show_ℤ x.lcnt h.15,
          stoi-show_ℤ x.lno h.16,
        )
        refl

  long_row :
      (x : Lane W)
      → IsLane x
      → read_lane (join b',' (take 22 (lane_columns x))) ≡ some (without_link x)
  unfolding read_lane read_rest read_linkwaid
  long_row x h =
      rw
        (
          split-join b',' (take 22 (lane_columns x))
              (All-take (IsPart b',') 22 (lane_columns x) (lane_columns-IsPart x h)),
          stoi-show_ℤ x.lnid h.0,
          stoi-show_ℤ x.did h.1,
          stoi-show_ℤ x.blid h.2,
          stoi-show_ℤ x.flid h.3,
          stoi-show_ℤ x.bnid h.4,
          stoi-show_ℤ x.fnid h.5,
          stoi-show_ℤ x.jct h.6,
          stoi-show_ℤ x.blid2 h.7,
          stoi-show_ℤ x.blid3 h.8,
          stoi-show_ℤ x.blid4 h.9,
          stoi-show_ℤ x.flid2 h.10,
          stoi-show_ℤ x.flid3 h.11,
          stoi-show_ℤ x.flid4 h.12,
          stoi-show_ℤ x.clossid h.13,
          h.14.read,
          stoi-show_ℤ x.lcnt h.15,
          stoi-show_ℤ x.lno h.16,
          stoi-show_ℤ x.lanetype h.17,
          stoi-show_ℤ x.limitvel h.18,
          stoi-show_ℤ x.refvel h.19,
          stoi-show_ℤ x.roadsecid h.20,
          stoi-show_ℤ x.lanecfgfg h.21,
        )
        refl

  -- A row with the first 17 or the first 22 columns of a lane is read as the lane with 0 in the fields
  -- of the other columns, when the lane's integers are in the range of an int and the text of its span
  -- is not empty, has no comma and no end of line and is read as it.
  pub read_lane-take :
      (x : Lane W)
      → IsLane x
      → (read_lane (join b',' (take 17 (lane_columns x))) ≡ some (without_attributes x))
        × (read_lane (join b',' (take 22 (lane_columns x))) ≡ some (without_link x))
  read_lane-take x h = (short_row x h, long_row x h)
