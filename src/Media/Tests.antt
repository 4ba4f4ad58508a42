-- ===== src/Media/Tests.antt =====
-- Listings of a small directory.
use oskey_firmware.Prelude.{
  ℕ, ◌+◌, ◌≡◌, refl, true, false, List, [], ◌∷◌, ◌++◌, arith, value, codes, length,
}
use oskey_firmware.Media.Card.{Item, Directory, list_directory, list_items}
use oskey_firmware.Media.Pages.{page, has_later, list_directory-page, list_directory-append}

abbrev item : List ℕ → Item
item name = record { name = name; size = 4; is_directory = false }

abbrev card : Directory
card = record {
  opened = value 0;
  items =
      item (codes ".")
      ∷ item (codes "a")
      ∷ item (codes "b")
      ∷ item (codes "..")
      ∷ item (codes "c")
      ∷ [];
  ending = value 0;
  closed = value 0;
}

list_directory_test : (list_directory true true (codes "/SD:/x") 1 1 card).2 ≡ true
unfolding list_directory list_items
list_directory_test = refl

list_directory-page_example :
    list_directory true true (codes "/SD:/x") 1 5 card
    ≡ (value (length (page 1 5 card.items)), page 1 5 card.items, has_later 1 5 card.items)
list_directory-page_example =
    list_directory-page (codes "/SD:/x") 1 5 card refl (omega arith) refl refl refl

list_directory-append_test :
    (list_directory true true (codes "/SD:/x") 0 2 card).1
      ++ (list_directory true true (codes "/SD:/x") (0 + 2) 3 card).1
    ≡ (list_directory true true (codes "/SD:/x") 0 (2 + 3) card).1
list_directory-append_test =
    list_directory-append (codes "/SD:/x") 0 2 3 card refl (omega arith) (omega arith) refl refl
      refl
