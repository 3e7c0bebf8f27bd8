-- ===== src/RemoteImage/Guard.antt =====
-- A fetch connects to public addresses only, a few times, and returns an image.
use docsmint.Prelude.{
  ℕ, zero, suc, ◌+◌, ◌≤◌, ◌≡◌, ◌⊎◌, refl, inl, inr, Bool, true, false, not, ◌&&◌, ◌||◌, Option,
  none, some, List, [], ◌∷◌, length, any, All, ◌==◌, if◌then◌else◌, ltb, leb, to_lower, Bool-cases,
  if-branches, length-append, arith,
}
use docsmint.RemoteImage.{
  Url, Target, Refusal, bracketed, is_local_name, is_public_address, with_addresses,
  resolve_public_remote_target,
}
use docsmint.RemoteImage.Fetch.{
  remote_image_max_bytes, max_redirects, Response, Image, prepend, read_chunks, read_bounded_body,
  is_allowed_type, has_expected_signature, before_semicolon, declared_too_large, Run, check_bytes,
  check_response, after_redirect, after_response, after_target, fetch_rounds, fetch_remote_image,
}

-- The target is a public address: the hostname is one, in whatever letters, or stands for one that was
-- looked up and put in brackets if it has a colon.
abbrev pub IsPublic : (List ℕ → ℕ) → Target → Type 0
IsPublic is_ip t =
    (address : List ℕ) × (is_public_address is_ip address ≡ true)
    × ((t.connect_url.hostname ≡ bracketed address) ⊎ (to_lower t.connect_url.hostname ≡ address))

-- What holds of a target that is not refused.
abbrev pub Passes {ℓ} : {A : Type 0} → (A → Type ℓ) → Refusal ⊎ A → Type ℓ
Passes P (inl e) = Unit
Passes P (inr t) = P t

module _ (is_ip : List ℕ → ℕ) where
  with_addresses-IsPublic :
      (url : Url) (hostname : List ℕ) (o : Option (List (List ℕ)))
      → Passes (IsPublic is_ip) (with_addresses is_ip url hostname o)
  unfolding with_addresses
  with_addresses-IsPublic url hostname none = tt
  with_addresses-IsPublic url hostname (some []) = tt
  with_addresses-IsPublic url hostname (some (x ∷ xs)) =
      elim (Bool-cases (is_public_address is_ip x)) [
        | inr private ↦ rw private tt
        | inl public ↦
            if-branches (Passes (IsPublic is_ip))
              (any (λ y. not (is_public_address is_ip y)) (x ∷ xs)) _ _ tt (x, public, inl refl)
      ]

  resolve-IsPublic :
      (lookup : List ℕ → Option (List (List ℕ))) (url : Url)
      → Passes (IsPublic is_ip) (resolve_public_remote_target is_ip lookup url)
  unfolding resolve_public_remote_target
  resolve-IsPublic lookup url =
      let P = Passes (IsPublic is_ip) in
      let hostname = to_lower url.hostname in
      if-branches P (not url.is_http) _ _ tt (
        if-branches P url.has_authority _ _ tt (
          if-branches P (is_local_name hostname) _ _ tt (
            if-branches P (not (is_ip hostname == 0)) _ _
              (literal (is_public_address is_ip hostname) refl)
              (with_addresses-IsPublic url hostname (lookup hostname)))))
    where
      literal :
          (b : Bool)
          → is_public_address is_ip (to_lower url.hostname) ≡ b
          → Passes (IsPublic is_ip) (
              if not b
              then inl Refusal.private_host
              else inr (record { connect_url = url; host_header = to_lower url.hostname }))
      literal true e = (to_lower url.hostname, e, inr refl)
      literal false e = tt

-- The bytes of an image: some, at most the maximum, of the type that the server declared.
abbrev pub IsImage : Image → Type 0
IsImage i =
    ((length i.bytes == 0) ≡ false)
    × (length i.bytes ≤ remote_image_max_bytes)
    × (is_allowed_type i.content_type ≡ true)
    × (has_expected_signature i.bytes i.content_type ≡ true)

prepend-bound :
    (total : ℕ) (chunk : List ℕ) (r : Refusal ⊎ List ℕ)
    → Passes (λ bytes. total + length chunk + length bytes ≤ remote_image_max_bytes) r
    → Passes (λ bytes. total + length bytes ≤ remote_image_max_bytes) (prepend chunk r)
prepend-bound total chunk (inl e) h = tt
prepend-bound total chunk (inr bytes) h = omega (arith, h, length-append chunk bytes)

read_chunks-bound :
    (total : ℕ) (chunks : List (Option (List ℕ)))
    → total ≤ remote_image_max_bytes
    → Passes (λ bytes. total + length bytes ≤ remote_image_max_bytes) (read_chunks total chunks)
unfolding read_chunks
read_chunks-bound total [] l = omega (arith, l)
read_chunks-bound total (none ∷ chunks) l = read_chunks-bound total chunks l
read_chunks-bound total (some chunk ∷ chunks) l =
    elim (Bool-cases (ltb remote_image_max_bytes (total + length chunk))) [
      | inl over ↦ rw over tt
      | inr within ↦ rw within (
          prepend-bound total chunk (read_chunks (total + length chunk) chunks)
            (read_chunks-bound (total + length chunk) chunks (ground arith)))
    ]

-- The whole body is at most the maximum.
IsBounded : List ℕ → Type 0
IsBounded bytes = length bytes ≤ remote_image_max_bytes

read_bounded_body-bound :
    (body : Option (List (Option (List ℕ)))) → Passes IsBounded (read_bounded_body body)
unfolding read_bounded_body IsBounded
read_bounded_body-bound none = omega arith
read_bounded_body-bound (some chunks) =
    whole (read_chunks 0 chunks) (read_chunks-bound 0 chunks (omega arith))
  where
    whole :
        (r : Refusal ⊎ List ℕ)
        → Passes (λ bytes. 0 + length bytes ≤ remote_image_max_bytes) r
        → Passes (λ bytes. length bytes ≤ remote_image_max_bytes) r
    whole (inl e) h = tt
    whole (inr bytes) h = omega (arith, h)

module _ (is_ip : List ℕ → ℕ) (trim : List ℕ → List ℕ) where
  check_bytes-IsImage :
      (t : List ℕ) (r : Refusal ⊎ List ℕ)
      → is_allowed_type t ≡ true
      → Passes IsBounded r
      → Passes IsImage (check_bytes is_ip trim t r)
  unfolding check_bytes IsBounded
  check_bytes-IsImage t (inl e) a h = tt
  check_bytes-IsImage t (inr bytes) a h = elim (Bool-cases (length bytes == 0)) [
    | inl empty ↦ rw empty tt
    | inr some_bytes ↦ elim (Bool-cases (has_expected_signature bytes t)) [
      | inr other ↦ rw some_bytes (rw other tt)
      | inl signed ↦
          let image : IsImage (record { bytes = bytes; content_type = t }) =
            (some_bytes, h, a, signed) in
          if-branches (Passes IsImage) (length bytes == 0 || not (has_expected_signature bytes t)) _
            _ tt image
    ]
  ]

  check_response-IsImage : (r : Response) → Passes IsImage (check_response is_ip trim r)
  unfolding check_response
  check_response-IsImage r =
      let P = Passes IsImage in
      let t = to_lower (trim (before_semicolon r.content_type)) in
      if-branches P (not (leb 200 r.status && leb r.status 299)) _ _ tt
        (typed t (is_allowed_type t) refl)
    where
      typed :
          (t : List ℕ) (b : Bool)
          → is_allowed_type t ≡ b
          → Passes IsImage (
              if not b
              then inl Refusal.unsupported_type
              else if declared_too_large r.content_length
              then inl Refusal.too_large
              else check_bytes is_ip trim t (read_bounded_body r.body))
      typed t false a = tt
      typed t true a =
          if-branches (Passes IsImage) (declared_too_large r.content_length) _ _ tt
            (check_bytes-IsImage t (read_bounded_body r.body) a (read_bounded_body-bound r.body))

  -- At most `n` connections, each to a public address, and an image if there is an outcome.
  abbrev pub IsGuarded : ℕ → Run → Type 0
  IsGuarded n r =
      All (IsPublic is_ip) r.connections × (length r.connections ≤ n) × Passes IsImage r.outcome

  module _ (lookup : List ℕ → Option (List (List ℕ))) (fetch : ℕ → Target → Option Response) where
    redirect-IsGuarded :
        (n redirect : ℕ) (next : Url → Run) (o : Option (Option Url))
        → ((u : Url) → IsGuarded n (next u))
        → IsGuarded n (after_redirect is_ip trim lookup fetch redirect next o)
    redirect-IsGuarded n redirect next none h = (tt, omega arith, tt)
    redirect-IsGuarded n redirect next (some none) h =
        if-branches (IsGuarded n) (redirect == max_redirects) _ _ (tt, omega arith, tt)
          (tt, omega arith, tt)
    redirect-IsGuarded n redirect next (some (some u)) h =
        if-branches (IsGuarded n) (redirect == max_redirects) _ _ (tt, omega arith, tt) (h u)

    response-IsGuarded :
        (n redirect : ℕ) (next : Url → Run) (o : Option Response)
        → ((u : Url) → IsGuarded n (next u))
        → IsGuarded n (after_response is_ip trim lookup fetch redirect next o)
    response-IsGuarded n redirect next none h = (tt, omega arith, tt)
    response-IsGuarded n redirect next (some r) h =
        if-branches (IsGuarded n) (leb 300 r.status && ltb r.status 400) _ _
          (redirect-IsGuarded n redirect next r.location h)
          (tt, omega arith, check_response-IsImage r)

    target-IsGuarded :
        (n redirect : ℕ) (next : Url → Run) (o : Refusal ⊎ Target)
        → ((u : Url) → IsGuarded n (next u))
        → Passes (IsPublic is_ip) o
        → IsGuarded (suc n) (after_target is_ip trim lookup fetch redirect next o)
    target-IsGuarded n redirect next (inl e) h p = (tt, omega arith, tt)
    target-IsGuarded n redirect next (inr t) h p =
        let (safe, few, image) = response-IsGuarded n redirect next (fetch redirect t) h in
        ((p, safe), omega (arith, few), image)

    rounds-IsGuarded :
        (n redirect : ℕ) (url : Url)
        → IsGuarded n (fetch_rounds is_ip trim lookup fetch n redirect url)
    unfolding fetch_rounds
    rounds-IsGuarded zero redirect url = (tt, omega arith, tt)
    rounds-IsGuarded (suc n) redirect url =
        target-IsGuarded n redirect (fetch_rounds is_ip trim lookup fetch n (redirect + 1))
          (resolve_public_remote_target is_ip lookup url) (λ u. rounds-IsGuarded n (redirect + 1) u)
          (resolve-IsPublic is_ip lookup url)

    -- Whatever the resolver and the servers answer, a fetch makes at most four connections, each to an
    -- address that is public, and what it returns is an image of an allowed type with its signature, of
    -- at most 25 MB.
    pub fetch_remote_image-IsGuarded :
        (url : Option Url) → IsGuarded 4 (fetch_remote_image is_ip trim lookup fetch url)
    unfolding fetch_remote_image
    fetch_remote_image-IsGuarded none = (tt, omega arith, tt)
    fetch_remote_image-IsGuarded (some url) = rounds-IsGuarded 4 0 url
