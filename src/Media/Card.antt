-- ===== src/Media/Card.antt =====
-- media.c: mounting the card, and listing a directory page by page.
use oskey_firmware.Prelude.{
  ℕ, suc, Bool, true, false, not, ◌&&◌, ◌||◌, List, [], ◌∷◌, ◌==◌, if◌then◌else◌, ltb, length, take,
  Code, value, fail, einval, is_fail, codes,
}

-- `struct fs_dirent`, with its name's bytes.
pub record Item : Type 0 where
  pub name : List ℕ
  pub size : ℕ
  pub is_directory : Bool

-- `struct media_entry`
pub record Entry : Type 0 where
  pub name : List ℕ
  pub size : ℕ
  pub is_directory : Bool

-- What the file system answers while a directory is listed: `fs_opendir`; the items of `fs_readdir`,
-- and what it returns after them (0 with an empty name, or a failure); `fs_closedir`.
pub record Directory : Type 0 where
  pub opened : Code
  pub items : List Item
  pub ending : Code
  pub closed : Code

abbrev pub same_text : List ℕ → List ℕ → Bool
same_text [] [] = true
same_text (x ∷ xs) (y ∷ ys) = x == y && same_text xs ys
same_text _ _ = false

-- `strncmp(path, prefix, length of prefix) == 0`
abbrev pub has_prefix : List ℕ → List ℕ → Bool
has_prefix [] path = true
has_prefix (x ∷ xs) [] = false
has_prefix (x ∷ xs) (y ∷ ys) = x == y && has_prefix xs ys

-- MEDIA_MOUNT_POINT, and the bytes of a name that MEDIA_ENTRY_NAME_MAX leaves room for.
abbrev pub mount_point : List ℕ
mount_point = codes "/SD:"

abbrev pub name_max : ℕ
name_max = 255

abbrev pub is_dots : List ℕ → Bool
is_dots name = same_text name (codes ".") || same_text name (codes "..")

abbrev pub is_nameless : Item → Bool
is_nameless item = length item.name == 0

-- `snprintf` into the entry cuts a name that is too long.
abbrev pub entry_of : Item → Entry
entry_of item = record {
  name = take name_max item.name;
  size = item.size;
  is_directory = item.is_directory;
}

-- `media_mount`: `mounted`, and what `fs_mount` returns if it is called.
unfoldable pub mount : Code → Bool → Code × Bool
mount rc true = (value 0, true)
mount rc false = if is_fail rc then (rc, false) else (value 0, true)

-- `media_unmount`
unfoldable pub unmount : Code → Bool → Code × Bool
unmount rc true = if is_fail rc then (rc, true) else (value 0, false)
unmount rc false = (value 0, false)

-- The loop of `media_list`, over the items to come: the entries, whether there are more, and what the
-- last `fs_readdir` returned.
unfoldable pub list_items : ℕ → ℕ → ℕ → ℕ → List Item → Code → List Entry × Bool × Code
list_items offset capacity skipped count [] ending = ([], false, ending)
list_items offset capacity skipped count (item ∷ rest) ending =
    let passed = list_items offset capacity skipped count rest ending in
    let skipping = list_items offset capacity (suc skipped) count rest ending in
    let (entries, more, rc) = list_items offset capacity (suc skipped) (suc count) rest ending in
    if is_nameless item
    then ([], false, value 0)
    else if is_dots item.name
    then passed
    else if ltb skipped offset
    then skipping
    else if count == capacity
    then ([], true, value 0)
    else (entry_of item ∷ entries, more, rc)

-- The result of `media_list`, from the loop's and that of `fs_closedir`.
abbrev pub close_list : Code → List Entry × Bool × Code → Code × List Entry × Bool
close_list closed (entries, more, rc) =
    if is_fail rc
    then (rc, entries, more)
    else if is_fail closed
    then (closed, entries, more)
    else (value (length entries), entries, more)

-- `media_list`: the result, the entries and `*has_more`. `there` is whether no pointer is NULL.
unfoldable pub list_directory : Bool → Bool → List ℕ → ℕ → ℕ → Directory → Code × List Entry × Bool
list_directory mounted there path offset capacity dir =
    let listed = list_items offset capacity 0 0 dir.items dir.ending in
    if not mounted || not there || capacity == 0 || not (has_prefix mount_point path)
    then (fail einval, [], false)
    else if is_fail dir.opened
    then (dir.opened, [], false)
    else close_list dir.closed listed
