-- ===== src/RemoteImage/Tests.antt =====
-- An image behind one redirect, and the second host resolved to a private address.
use docsmint.Prelude.{
  ℕ, ◌≡◌, ◌⊎◌, refl, inl, inr, true, false, Option, none, some, List, [], ◌∷◌, length, any, ◌==◌,
  if◌then◌else◌, same_text, starts_with, arith,
}
use docsmint.RemoteImage.{
  Url, Target, Refusal, number_from, split_dots, are_blocked, is_blocked_ipv4, is_public_address,
  with_addresses, resolve_public_remote_target,
}
use docsmint.RemoteImage.Addresses.{value, private_ranges, in_range, are_blocked-in_range}
use docsmint.RemoteImage.Fetch.{
  Response, Image, read_chunks, read_bounded_body, has_expected_signature, check_bytes,
  check_response, fetch_rounds, fetch_remote_image,
}
use docsmint.RemoteImage.Guard.{IsGuarded, fetch_remote_image-IsGuarded}

-- "8.8.4.4" and "10.8.4.4"
abbrev public_address : List ℕ
public_address = 56 ∷ 46 ∷ 56 ∷ 46 ∷ 52 ∷ 46 ∷ 52 ∷ []

abbrev private_address : List ℕ
private_address = 49 ∷ 48 ∷ 46 ∷ 56 ∷ 46 ∷ 52 ∷ 46 ∷ 52 ∷ []

abbrev is_ip : List ℕ → ℕ
is_ip a = if same_text a public_address then 4 else if same_text a private_address then 4 else 0

-- The hosts "a" and "b".
abbrev url : ℕ → Url
url host = record {
  is_http = true;
  is_secure = false;
  has_authority = false;
  hostname = host ∷ [];
  rest = 0;
}

abbrev lookup : List ℕ → Option (List (List ℕ))
lookup name =
    if same_text name (97 ∷ [])
    then some (public_address ∷ [])
    else some (public_address ∷ private_address ∷ [])

-- "image/bmp"
abbrev bitmap : Response
bitmap = record {
  status = 200;
  location = none;
  content_type = 105 ∷ 109 ∷ 97 ∷ 103 ∷ 101 ∷ 47 ∷ 98 ∷ 109 ∷ 112 ∷ [];
  content_length = none;
  body = some (some (66 ∷ []) ∷ none ∷ some (77 ∷ 0 ∷ []) ∷ []);
}

abbrev moved : ℕ → Response
moved host = record {
  status = 302;
  location = some (some (url host));
  content_type = [];
  content_length = none;
  body = none;
}

abbrev fetch_from : ℕ → ℕ → Target → Option Response
fetch_from host redirect t = if redirect == 0 then some (moved host) else some bitmap

abbrev bytes_of : Refusal ⊎ Image → ℕ
bytes_of (inl e) = 0
bytes_of (inr i) = length i.bytes

test-fetch :
    bytes_of (fetch_remote_image is_ip (λ t. t) lookup (fetch_from 97) (some (url 97))).outcome ≡ 3
unfolding fetch_remote_image fetch_rounds resolve_public_remote_target with_addresses
    is_public_address is_blocked_ipv4 are_blocked split_dots number_from check_response check_bytes
    read_bounded_body read_chunks has_expected_signature starts_with
test-fetch = refl

test-private :
    length (fetch_remote_image is_ip (λ t. t) lookup (fetch_from 98) (some (url 97))).connections
    ≡ 1
unfolding fetch_remote_image fetch_rounds resolve_public_remote_target with_addresses
    is_public_address is_blocked_ipv4 are_blocked split_dots number_from
test-private = refl

fetch_remote_image-IsGuarded_example :
    IsGuarded is_ip
      (λ t. t)
      4
      (fetch_remote_image is_ip (λ t. t) lookup (fetch_from 97) (some (url 97)))
fetch_remote_image-IsGuarded_example =
    fetch_remote_image-IsGuarded is_ip (λ t. t) lookup (fetch_from 97) (some (url 97))

are_blocked-in_range_example :
    are_blocked (some 172 ∷ some 20 ∷ some 1 ∷ some 9 ∷ [])
    ≡ any (in_range (value 172 20 1 9)) private_ranges
are_blocked-in_range_example =
    are_blocked-in_range 172 20 1 9 (omega arith) (omega arith) (omega arith) (omega arith)
