-- ===== src/VectorMap/Files.antt =====
-- `parse` of vector_map/include/vector_map/vector_map.h: the items of a file, whose first line is a heading.
use autoware_ai_common.Base.{
  All, List, Option, [], and_then, ap, map, refl, some, subst, ◌++◌, ◌∙◌, ◌∷◌, ◌≡◌,
}
use autoware_ai_common.VectorMap.Numbers.{Bytes}
use autoware_ai_common.VectorMap.Columns.{Decimals, Lacks, split, split-append}
use autoware_ai_common.VectorMap.Items.{IsItem, Item, Kind, kind_of, print_item, read_item}
use autoware_ai_common.VectorMap.RoundTrip.{print_item-line, read_item-print}

unfoldable pub read_all : {A : Type 0} → (Bytes → Option A) → List Bytes → Option (List A)
read_all read [] = some []
read_all read (row ∷ rows) =
    and_then (read row) (λ obj. and_then (read_all read rows) (λ objs. some (obj ∷ objs)))

abbrev tail_of : List Bytes → List Bytes
tail_of [] = []
tail_of (row ∷ rows) = rows

-- parse<T>, with the reader of the type and the text of the file
unfoldable pub parse : {A : Type 0} → (Bytes → Option A) → Bytes → Option (List A)
unfolding read_all
parse read file = read_all read (tail_of (split b'\n' file))

-- The file with a heading and some lines, each with its end.
abbrev pub file_of : List Bytes → Bytes
file_of [] = []
file_of (row ∷ rows) = row ++ b'\n' ∷ file_of rows

split-file_of : (rows : List Bytes) → All (Lacks b'\n') rows → split b'\n' (file_of rows) ≡ rows
unfolding split
split-file_of [] h = refl
split-file_of (row ∷ rows) h =
    split-append b'\n' row (file_of rows) h.0 ∙ ap (λ r. row ∷ r) (split-file_of rows h.1)

module _ {W : Type 0} ⦃t : Decimals W⦄ (kind : Kind) where
  lines-Lack :
      (xs : List (Item W))
      → All (λ x. (kind_of x ≡ kind) × IsItem x) xs
      → All (Lacks b'\n') (map print_item xs)
  lines-Lack [] h = tt
  lines-Lack (x ∷ xs) ((k, f), h) = (print_item-line x f, lines-Lack xs h)

  read_all-print :
      (xs : List (Item W))
      → All (λ x. (kind_of x ≡ kind) × IsItem x) xs
      → read_all (read_item kind) (map print_item xs) ≡ some xs
  unfolding read_all
  read_all-print [] h = refl
  read_all-print (x ∷ xs) ((k, f), h) =
      rw
        (
          subst (λ j. read_item j (print_item x) ≡ some x) k (read_item-print x f),
          read_all-print xs h,
        )
        refl

  -- A file of a heading of one line and the rows of items of one kind is parsed into these items, in
  -- their order, when each of them has integers in the range of an int, doubles whose text is not
  -- empty, has no comma and no end of line and is read as it, and a colour that is neither of these
  -- characters.
  pub parse-file_of :
      (heading : Bytes) (xs : List (Item W))
      → Lacks b'\n' heading
      → All (λ x. (kind_of x ≡ kind) × IsItem x) xs
      → parse (read_item kind) (file_of (heading ∷ map print_item xs)) ≡ some xs
  unfolding parse
  parse-file_of heading xs l h =
      ap (λ lines. read_all (read_item kind) (tail_of lines))
        (split-file_of (heading ∷ map print_item xs) (l, lines-Lack xs h))
      ∙ read_all-print xs h
