-- ===== src/RemoteImage/Fetch.antt =====
-- fetchRemoteImage: the redirects, the checks of the answer and the body.
use docsmint.Prelude.{
  ℕ, zero, suc, ◌+◌, Bool, false, not, ◌&&◌, ◌||◌, Option, none, some, List, [], ◌∷◌, ◌++◌, ◌⊎◌,
  inl, inr, length, ◌==◌, if◌then◌else◌, ltb, leb, starts_with, same_text, to_lower,
}
use docsmint.RemoteImage.{Url, Target, Refusal, resolve_public_remote_target}

-- `REMOTE_IMAGE_MAX_BYTES`, 25 * 1024 * 1024
abbrev pub remote_image_max_bytes : ℕ
remote_image_max_bytes = 26214400

-- `MAX_REDIRECTS`
abbrev pub max_redirects : ℕ
max_redirects = 3

-- What the code reads of a `Response`: `location` is none without the header, and its URL none if it
-- cannot be parsed; a length that is not a finite number is none; a chunk of the body is a list of
-- bytes, or none without a value.
pub record Response : Type 0 where
  pub status : ℕ
  pub location : Option (Option Url)
  pub content_type : List ℕ
  pub content_length : Option ℕ
  pub body : Option (List (Option (List ℕ)))

-- `RemoteImageResult`
pub record Image : Type 0 where
  pub bytes : List ℕ
  pub content_type : List ℕ

abbrev pub prepend : List ℕ → Refusal ⊎ List ℕ → Refusal ⊎ List ℕ
prepend chunk (inl e) = inl e
prepend chunk (inr bytes) = inr (chunk ++ bytes)

-- The loop of `readBoundedBody`, where `total` bytes were read before.
unfoldable pub read_chunks : ℕ → List (Option (List ℕ)) → Refusal ⊎ List ℕ
read_chunks total [] = inr []
read_chunks total (none ∷ chunks) = read_chunks total chunks
read_chunks total (some chunk ∷ chunks) =
    let rest = prepend chunk (read_chunks (total + length chunk) chunks) in
    if ltb remote_image_max_bytes (total + length chunk) then inl Refusal.too_large else rest

unfoldable pub read_bounded_body : Option (List (Option (List ℕ))) → Refusal ⊎ List ℕ
read_bounded_body none = inr []
read_bounded_body (some chunks) = read_chunks 0 chunks

-- "image/" and the names of the four types.
abbrev pub image_type : List ℕ → List ℕ
image_type name = 105 ∷ 109 ∷ 97 ∷ 103 ∷ 101 ∷ 47 ∷ name

abbrev pub is_jpeg : List ℕ → Bool
is_jpeg t = same_text t (image_type (106 ∷ 112 ∷ 101 ∷ 103 ∷ []))

abbrev pub is_png : List ℕ → Bool
is_png t = same_text t (image_type (112 ∷ 110 ∷ 103 ∷ []))

abbrev pub is_gif : List ℕ → Bool
is_gif t = same_text t (image_type (103 ∷ 105 ∷ 102 ∷ []))

abbrev pub is_bmp : List ℕ → Bool
is_bmp t = same_text t (image_type (98 ∷ 109 ∷ 112 ∷ []))

-- `ALLOWED_IMAGE_TYPES.has(contentType)`
abbrev pub is_allowed_type : List ℕ → Bool
is_allowed_type t = is_jpeg t || is_png t || is_gif t || is_bmp t

-- The signatures: the bytes ff d8; those of PNG; "GIF87a" or "GIF89a"; and "BM".
unfoldable pub has_expected_signature : List ℕ → List ℕ → Bool
has_expected_signature bytes t =
    if is_jpeg t
    then starts_with (255 ∷ 216 ∷ []) bytes
    else if is_png t
    then starts_with (137 ∷ 80 ∷ 78 ∷ 71 ∷ 13 ∷ 10 ∷ 26 ∷ 10 ∷ []) bytes
    else if is_gif t
    then starts_with (71 ∷ 73 ∷ 70 ∷ 56 ∷ 55 ∷ 97 ∷ []) bytes
      || starts_with (71 ∷ 73 ∷ 70 ∷ 56 ∷ 57 ∷ 97 ∷ []) bytes
    else if is_bmp t
    then starts_with (66 ∷ 77 ∷ []) bytes
    else false

-- `split(";", 1)[0]`
abbrev pub before_semicolon : List ℕ → List ℕ
before_semicolon [] = []
before_semicolon (c ∷ cs) = if c == 59 then [] else c ∷ before_semicolon cs

-- The connections that were made, in their order, and how the fetch ended.
pub record Run : Type 0 where
  pub connections : List Target
  pub outcome : Refusal ⊎ Image

abbrev pub connect : Target → Run → Run
connect t r = record { connections = t ∷ r.connections; outcome = r.outcome }

abbrev pub ended : Refusal ⊎ Image → Run
ended o = record { connections = []; outcome = o }

abbrev pub declared_too_large : Option ℕ → Bool
declared_too_large none = false
declared_too_large (some n) = ltb remote_image_max_bytes n

module _ (is_ip : List ℕ → ℕ) (trim : List ℕ → List ℕ) where
  -- The checks of the bytes.
  unfoldable pub check_bytes : List ℕ → Refusal ⊎ List ℕ → Refusal ⊎ Image
  check_bytes t (inl e) = inl e
  check_bytes t (inr bytes) =
      if length bytes == 0 || not (has_expected_signature bytes t)
      then inl Refusal.not_an_image
      else inr (record { bytes = bytes; content_type = t })

  -- An answer that is not a redirect.
  unfoldable pub check_response : Response → Refusal ⊎ Image
  check_response r =
      let content_type = to_lower (trim (before_semicolon r.content_type)) in
      if not (leb 200 r.status && leb r.status 299)
      then inl Refusal.bad_status
      else if not (is_allowed_type content_type)
      then inl Refusal.unsupported_type
      else if declared_too_large r.content_length
      then inl Refusal.too_large
      else check_bytes content_type (read_bounded_body r.body)

  module _ (lookup : List ℕ → Option (List (List ℕ))) (fetch : ℕ → Target → Option Response) where
    -- Where a redirect leads, in a round of which `next` says what comes after it.
    abbrev pub after_redirect : ℕ → (Url → Run) → Option (Option Url) → Run
    after_redirect redirect next none = ended (inl Refusal.too_many_redirects)
    after_redirect redirect next (some url) =
        if redirect == max_redirects then ended (inl Refusal.too_many_redirects) else follow url
      where
        follow : Option Url → Run
        follow none = ended (inl Refusal.failed)
        follow (some u) = next u

    abbrev pub after_response : ℕ → (Url → Run) → Option Response → Run
    after_response redirect next none = ended (inl Refusal.failed)
    after_response redirect next (some r) =
        if leb 300 r.status && ltb r.status 400
        then after_redirect redirect next r.location
        else ended (check_response r)

    abbrev pub after_target : ℕ → (Url → Run) → Refusal ⊎ Target → Run
    after_target redirect next (inl e) = ended (inl e)
    after_target redirect next (inr t) = connect t (after_response redirect next (fetch redirect t))

    -- The loop from a redirect on; `rounds` are left.
    unfoldable pub fetch_rounds : ℕ → ℕ → Url → Run
    fetch_rounds zero redirect url = ended (inl Refusal.not_fetched)
    fetch_rounds (suc rounds) redirect url =
        after_target redirect (fetch_rounds rounds (redirect + 1))
          (resolve_public_remote_target is_ip lookup url)

    -- The URL is none if it cannot be parsed.
    unfoldable pub fetch_remote_image : Option Url → Run
    fetch_remote_image none = ended (inl Refusal.failed)
    fetch_remote_image (some url) = fetch_rounds (suc max_redirects) 0 url
