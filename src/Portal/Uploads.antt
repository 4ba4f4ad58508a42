-- ===== src/Portal/Uploads.antt =====
-- The firmware upload asks for an upgrade only after an authorized image that was written whole; the
-- Wi-Fi form is taken apart as it was put together.
use oskey_firmware.Prelude.{
  ℕ, suc, ◌≡◌, ◌⊎◌, refl, ap, Bool, true, false, some, List, [], ◌∷◌, ◌++◌, arith, append_assoc,
  ◌∙◌, if◌then◌else◌, ◌||◌, ◌==◌, is_zero,
}
use oskey_firmware.Portal.Endpoints.{
  Transaction, aborted, complete, more_data, final_data, Services, split_colon, credentials_fit,
  wifi_form, wifi_post, submit_credentials,
}
use oskey_firmware.Portal.Requests.{
  has_authorization, is_headed, Part, HeaderStatus, headers_none, headers_ok, headers_dropped,
}
use oskey_firmware.Portal.Firmware.{
  Flash, Upload, upload_reset, upload_authorize, upload_write, upload_finish, upload_part, upload,
}

-- Whether the image in transfer carries the authorizing header, after a call: the last headers that
-- came with a part decide, and the end of a request forgets them.
abbrev pub carries : Bool → Transaction × Part → Bool
carries before (aborted, p) = false
carries before (complete, p) = false
carries before (_, p) = if is_headed p.status then has_authorization p else before

-- The upload is authorized if its image carries the header, and while it is and has had no failure,
-- every call of the writer has succeeded.
pub record IsSound {F : Type 0} (carrying : Bool) (u : Upload F) : Type 0 where
  pub carried : u.authorized ≡ carrying
  pub sound_is : u.authorized ≡ true → is_zero u.result ≡ true → u.sound ≡ true

-- What a call may do to the number of upgrades.
abbrev pub MayUpgrade : {F : Type 0} → Transaction → Bool → Upload F → Upload F → Type 0
MayUpgrade t carrying u v =
    (v.upgrades ≡ u.upgrades)
    ⊎ ((t ≡ final_data) × (carrying ≡ true) × (v.sound ≡ true) × (v.upgrades ≡ suc u.upgrades))

module _ {F : Type 0} (flash : Flash F) where
  -- The step of `carries` for a part.
  abbrev headed_or : Bool → Part → Bool
  headed_or before p = if is_headed p.status then has_authorization p else before

  authorize-IsSound_at :
      (h : HeaderStatus) (p : Part) (before : Bool) (u : Upload F)
      → p.status ≡ h
      → IsSound before u
      → IsSound (headed_or before p) (upload_authorize flash p u)
        × ((upload_authorize flash p u).upgrades ≡ u.upgrades)
  unfolding upload_authorize
  authorize-IsSound_at headers_none p before u e s = rw e (s, refl)
  authorize-IsSound_at headers_ok p before u e s = rw e (ground arith)
  authorize-IsSound_at headers_dropped p before u e s = rw e (ground arith)

  write-IsSound :
      (final carrying : Bool) (p : Part) (u : Upload F)
      → IsSound carrying u
      → IsSound carrying (upload_write flash final p u)
        × ((upload_write flash final p u).upgrades ≡ u.upgrades)
  unfolding upload_write
  write-IsSound final carrying p u s = ground arith

  finish-IsSound :
      (carrying : Bool) (u : Upload F)
      → IsSound carrying u
      → IsSound carrying (upload_finish flash u).1
        × MayUpgrade final_data carrying u (upload_finish flash u).1
  unfolding upload_finish
  finish-IsSound carrying u s = ground arith

  part-IsSound :
      (final before : Bool) (p : Part) (u : Upload F)
      → IsSound before u
      → let t = if final then final_data else more_data in
        IsSound (headed_or before p) (upload_part flash final p u).1
        × MayUpgrade t (headed_or before p) u (upload_part flash final p u).1
  unfolding upload_part
  part-IsSound final before p u s =
      let a = authorize-IsSound_at p.status p before u refl s in
      let t = upload_authorize flash p u in
      let w = write-IsSound final (headed_or before p) p t a.0 in
      let f = finish-IsSound (headed_or before p) (upload_write flash final p t) w.0 in
      ground (arith, a, w, f)

  -- In every call of the upload handler, the upload stays authorized exactly while the last headers
  -- that came with the image carry the authorizing one; and an upgrade is requested at most once, and
  -- only by the final part of an image that carries it and for which the writer failed at no call.
  pub upload-IsSound :
      (t : Transaction) (p : Part) (before : Bool) (u : Upload F)
      → IsSound before u
      → IsSound (carries before (t, p)) (upload flash t p u).1
        × MayUpgrade t (carries before (t, p)) u (upload flash t p u).1
  unfolding upload upload_reset
  upload-IsSound aborted p before u s = ground arith
  upload-IsSound complete p before u s = ground arith
  upload-IsSound more_data p before u s = part-IsSound false before p u s
  upload-IsSound final_data p before u s = part-IsSound true before p u s

abbrev pub has_colon : List ℕ → Bool
has_colon [] = false
has_colon (c ∷ rest) = c == b':' || has_colon rest

split_colon-append :
    (ssid password : List ℕ)
    → has_colon ssid ≡ false
    → split_colon (ssid ++ b':' ∷ password) ≡ some (ssid, password)
split_colon-append [] password h = refl
split_colon-append (c ∷ rest) password h = ground (arith, split_colon-append rest password)

-- A form of a network name without a colon and a password, joined by a colon, is taken apart as it
-- was put together, and submitted, if their lengths fit.
pub wifi_post-join :
    {W : Type 0} (services : Services W) (ssid password : List ℕ) (w : W)
    → has_colon ssid ≡ false
    → credentials_fit ssid password ≡ true
    → wifi_post services final_data (ssid ++ b':' ∷ password) w
      ≡ submit_credentials services ssid password w
unfolding wifi_post wifi_form
wifi_post-join services ssid password w h f =
    ap (λ parts. wifi_form services parts w) (split_colon-append ssid password h) ∙ rw f refl

-- A network name with a colon is not submitted as such: the form of the name `a:b` and a password is
-- taken for the name `a`, without a colon, with what follows as its password, if their lengths fit.
pub wifi_post-colon :
    {W : Type 0} (services : Services W) (a b password : List ℕ) (w : W)
    → has_colon a ≡ false
    → credentials_fit a (b ++ b':' ∷ password) ≡ true
    → wifi_post services final_data ((a ++ b':' ∷ b) ++ b':' ∷ password) w
      ≡ submit_credentials services a (b ++ b':' ∷ password) w
wifi_post-colon services a b password w h f =
    ap (λ form. wifi_post services final_data form w) (append_assoc a (b':' ∷ b) (b':' ∷ password))
    ∙ wifi_post-join services a (b ++ b':' ∷ password) w h f
