-- ===== src/Media/Pages.antt =====
-- A page of `media_list` is a window of the visible items of the directory.
use mathlib.Core.List.{map-append}
use oskey_firmware.Prelude.{
  ℕ, zero, suc, ◌+◌, ◌≡◌, ◌≢◌, refl, sym, ap, ◌∙◌, inl, inr, Bool-cases, Bool, true, false, List,
  [], ◌∷◌, ◌++◌, map, arith, ◌==◌, if◌then◌else◌, ltb, length, take, drop, Code, value, is_fail,
}
use oskey_firmware.Prelude.Windows.{take-append-take, drop-drop}
use oskey_firmware.Media.Card.{
  Item, Entry, Directory, is_dots, is_nameless, entry_of, list_items, list_directory, has_prefix,
  mount_point,
}

-- The items before the end of the directory, less "." and "..".
abbrev pub visible : List Item → List Item
visible [] = []
visible (item ∷ rest) =
    if is_nameless item then [] else if is_dots item.name then visible rest else item ∷ visible rest

-- The window of `capacity` entries from `offset` on, and whether there are further items.
abbrev pub page : ℕ → ℕ → List Item → List Entry
page offset capacity items = map entry_of (take capacity (drop offset (visible items)))

abbrev pub has_later : ℕ → ℕ → List Item → Bool
has_later offset capacity items = ltb (offset + capacity) (length (visible items))

-- What the loop is to give: a window of the visible items, and whether there are more.
abbrev IsWindow : ℕ → ℕ → List Item → List Entry × Bool × Code → Type 0
IsWindow left room shown r =
    (r.0 ≡ map entry_of (take room (drop left shown)))
    × (r.1 ≡ ltb (left + room) (length shown))
    × (r.2 ≡ value 0)

IsWindow-nil : (left room : ℕ) → IsWindow left room [] ([], false, value 0)
IsWindow-nil zero zero = ground arith
IsWindow-nil zero (suc room) = ground arith
IsWindow-nil (suc left) zero = ground arith
IsWindow-nil (suc left) (suc room) = ground arith

ltb-suc : (a b : ℕ) → ltb (suc a) (suc b) ≡ ltb a b
ltb-suc a b = ground arith

IsWindow-full : (item : Item) (shown : List Item) → IsWindow 0 0 (item ∷ shown) ([], true, value 0)
IsWindow-full item shown = ground arith

IsWindow-take :
    (room : ℕ) (item : Item) (shown : List Item) (r : List Entry × Bool × Code)
    → IsWindow 0 room shown r
    → IsWindow 0 (suc room) (item ∷ shown) (entry_of item ∷ r.0, r.1, r.2)
IsWindow-take room item shown r (a, b, c) = (ap (λ es. entry_of item ∷ es) a, b ∙ ground arith, c)

IsWindow-skip :
    (left room : ℕ) (item : Item) (shown : List Item) (r : List Entry × Bool × Code)
    → IsWindow left room shown r
    → IsWindow (suc left) room (item ∷ shown) r
IsWindow-skip left room item shown r (a, b, c) = (a, b ∙ ground arith, c)

IsWindow-room :
    (room count capacity : ℕ) (item : Item) (shown : List Item) (r : List Entry × Bool × Code)
    → count + room ≡ capacity
    → ((m : ℕ) → suc m ≡ room → IsWindow 0 m shown r)
    → IsWindow 0 room
        (item ∷ shown)
        (if count == capacity then ([], true, value 0) else (entry_of item ∷ r.0, r.1, r.2))
IsWindow-room zero count capacity item shown r e h =
    let full : (count == capacity) ≡ true = ground arith in rw full (IsWindow-full item shown)
IsWindow-room (suc m) count capacity item shown r e h =
    let free : (count == capacity) ≡ false = ground arith in
    rw free (IsWindow-take m item shown r (h m refl))

-- Past the offset the loop takes what it has room for.
list_items-taking :
    (offset room capacity skipped count : ℕ) (items : List Item)
    → ltb skipped offset ≡ false
    → count + room ≡ capacity
    → IsWindow 0 room (visible items) (list_items offset capacity skipped count items (value 0))
unfolding list_items
list_items-taking offset room capacity skipped count [] h e = IsWindow-nil 0 room
list_items-taking offset room capacity skipped count (item ∷ rest) h e =
    elim (Bool-cases (is_nameless item)) [
      | inl a ↦ rw a (IsWindow-nil 0 room)
      | inr a ↦ elim (Bool-cases (is_dots item.name)) [
        | inl b ↦ rw (a, b) (list_items-taking offset room capacity skipped count rest h e)
        | inr b ↦
            rw (a, b, h)
              (IsWindow-room room count capacity item (visible rest)
                (list_items offset capacity (suc skipped) (suc count) rest (value 0)) e
                (λ m k.
                  list_items-taking offset m capacity (suc skipped) (suc count) rest (ground arith)
                    (omega arith)))
      ]
    ]

-- Before the offset it passes visible items over.
list_items-page :
    (left offset capacity skipped : ℕ) (items : List Item)
    → skipped + left ≡ offset
    → IsWindow left capacity (visible items) (list_items offset capacity skipped 0 items (value 0))
unfolding list_items
list_items-page zero offset capacity skipped items e =
    list_items-taking offset capacity capacity skipped 0 items (ground arith) (omega arith)
list_items-page (suc left) offset capacity skipped [] e = IsWindow-nil (suc left) capacity
list_items-page (suc left) offset capacity skipped (item ∷ rest) e =
    let early : ltb skipped offset ≡ true = ground arith in
    elim (Bool-cases (is_nameless item)) [
      | inl a ↦ rw a (IsWindow-nil (suc left) capacity)
      | inr a ↦ elim (Bool-cases (is_dots item.name)) [
        | inl b ↦ rw (a, b) (list_items-page (suc left) offset capacity skipped rest e)
        | inr b ↦
            rw (a, b, early)
              (IsWindow-skip left capacity item (visible rest) _
                (list_items-page left offset capacity (suc skipped) rest (omega arith)))
      ]
    ]

-- On a mounted card, a listing of a directory that opens, reads and closes without an error gives the
-- page of its visible items: `capacity` entries from `offset` on, their number, and whether there are
-- later ones.
pub list_directory-page :
    (path : List ℕ) (offset capacity : ℕ) (dir : Directory)
    → has_prefix mount_point path ≡ true
    → capacity ≢ 0
    → is_fail dir.opened ≡ false
    → is_fail dir.closed ≡ false
    → dir.ending ≡ value 0
    → let shown = page offset capacity dir.items in
      list_directory true true path offset capacity dir
      ≡ (value (length shown), shown, has_later offset capacity dir.items)
unfolding list_directory
list_directory-page path offset capacity dir p n o c e =
    let full : (capacity == 0) ≡ false = ground arith in
    let (a, b, d) = list_items-page offset offset capacity 0 dir.items (omega arith) in
    rw (p, full, o, e, a, b, d, c) refl

page-append-page :
    (offset capacity more : ℕ) (items : List Item)
    → page offset capacity items ++ page (offset + capacity) more items
      ≡ page offset (capacity + more) items
page-append-page offset capacity more items =
    let shown = drop offset (visible items) in
    ap (λ xs. page offset capacity items ++ map entry_of (take more xs))
      (sym (drop-drop offset capacity (offset + capacity) (visible items) refl))
    ∙ sym (map-append entry_of (take capacity shown) (take more (drop capacity shown)))
    ∙ ap (map entry_of) (take-append-take capacity more (capacity + more) shown refl)

-- Two pages that follow each other give together what one listing with room for both gives: no entry
-- is lost or shown twice between them.
pub list_directory-append :
    (path : List ℕ) (offset capacity more : ℕ) (dir : Directory)
    → has_prefix mount_point path ≡ true
    → capacity ≢ 0
    → more ≢ 0
    → is_fail dir.opened ≡ false
    → is_fail dir.closed ≡ false
    → dir.ending ≡ value 0
    → (list_directory true true path offset capacity dir).1
        ++ (list_directory true true path (offset + capacity) more dir).1
      ≡ (list_directory true true path offset (capacity + more) dir).1
list_directory-append path offset capacity more dir p n m o c e =
    rw
      (
        list_directory-page path offset capacity dir p n o c e,
        list_directory-page path (offset + capacity) more dir p m o c e,
        list_directory-page path offset (capacity + more) dir p (λ z. n (omega arith)) o c e,
      )
      (page-append-page offset capacity more dir.items)
