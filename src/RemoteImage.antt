-- ===== src/RemoteImage.antt =====
-- backend/src/lib/remote-image.ts: images of other hosts, fetched from public addresses only. Texts are
-- lists of code units; the test of addresses (`isIP`), URLs, the resolver and the servers are parameters.
pub mod Addresses
pub mod Fetch
pub mod Guard
mod Tests
use docsmint.Prelude.{
  ℕ, zero, suc, ◌+◌, ◌-◌, ◌*◌, Bool, true, false, not, ◌&&◌, ◌||◌, Option, none, some, List, [],
  ◌∷◌, ◌++◌, ◌⊎◌, inl, inr, map, length, any, drop, ◌==◌, if◌then◌else◌, ltb, leb, starts_with,
  same_text, ends_with, to_lower,
}

-- `Number(text)` on decimal digits; none is NaN.
abbrev pub is_digit : ℕ → Bool
is_digit c = leb 48 c && leb c 57

unfoldable pub number_from : ℕ → List ℕ → Option ℕ
number_from n [] = some n
number_from n (c ∷ cs) =
    let rest = number_from (n * 10 + (c - 48)) cs in if is_digit c then rest else none

abbrev pub append_to_first : ℕ → List (List ℕ) → List (List ℕ)
append_to_first c [] = (c ∷ []) ∷ []
append_to_first c (p ∷ ps) = (c ∷ p) ∷ ps

-- `address.split(".")`
unfoldable pub split_dots : List ℕ → List (List ℕ)
split_dots [] = [] ∷ []
split_dots (c ∷ cs) = if c == 46 then [] ∷ split_dots cs else append_to_first c (split_dots cs)

abbrev pub test : (ℕ → Bool) → Option ℕ → Bool
test p none = false
test p (some n) = p n

-- `isBlockedIpv4` from the numbers on.
unfoldable pub are_blocked : List (Option ℕ) → Bool
are_blocked (a ∷ b ∷ c ∷ d ∷ []) =
    test (λ n. n == 0) a
    || (test (λ n. n == 10) a
        || (test (λ n. n == 127) a
            || (test (λ n. leb 224 n) a
                || ((test (λ n. n == 169) a && test (λ n. n == 254) b)
                    || ((test (λ n. n == 172) a
                          && (test (λ n. leb 16 n) b && test (λ n. leb n 31) b))
                        || ((test (λ n. n == 192) a && test (λ n. n == 168) b)
                            || (test (λ n. n == 100) a
                                && (test (λ n. leb 64 n) b && test (λ n. leb n 127) b))))))))
are_blocked _ = true

unfoldable pub is_blocked_ipv4 : List ℕ → Bool
is_blocked_ipv4 address = are_blocked (map (number_from 0) (split_dots address))

-- The prefixes of private addresses of version 6: "::ffff:", "fc", "fd", "fe8" to "feb".
abbrev pub mapped_prefix : List ℕ
mapped_prefix = 58 ∷ 58 ∷ 102 ∷ 102 ∷ 102 ∷ 102 ∷ 58 ∷ []

abbrev pub is_private_ipv6 : List ℕ → Bool
is_private_ipv6 a =
    same_text a (58 ∷ 58 ∷ [])
    || same_text a (58 ∷ 58 ∷ 49 ∷ [])
    || starts_with (102 ∷ 99 ∷ []) a
    || starts_with (102 ∷ 100 ∷ []) a
    || starts_with (102 ∷ 101 ∷ 56 ∷ []) a
    || starts_with (102 ∷ 101 ∷ 57 ∷ []) a
    || starts_with (102 ∷ 101 ∷ 97 ∷ []) a
    || starts_with (102 ∷ 101 ∷ 98 ∷ []) a

-- `URL`, with what the code reads of it: whether the protocol is HTTP, and is secure; whether there is a
-- user, a password or a port; and all the rest as one number.
pub record Url : Type 0 where
  pub is_http : Bool
  pub is_secure : Bool
  pub has_authority : Bool
  pub hostname : List ℕ
  pub rest : ℕ

pub record Target : Type 0 where
  pub connect_url : Url
  pub host_header : List ℕ

-- The errors that are thrown; `failed` is one of the resolver, of a URL or of the connection.
pub data Refusal : Type 0 where
  not_http : Refusal
  has_unsupported_authority : Refusal
  private_host : Refusal
  too_many_redirects : Refusal
  bad_status : Refusal
  unsupported_type : Refusal
  too_large : Refusal
  not_an_image : Refusal
  not_fetched : Refusal
  failed : Refusal

-- "localhost" and ".local"
abbrev pub is_local_name : List ℕ → Bool
is_local_name name =
    same_text name (108 ∷ 111 ∷ 99 ∷ 97 ∷ 108 ∷ 104 ∷ 111 ∷ 115 ∷ 116 ∷ [])
    || ends_with (46 ∷ 108 ∷ 111 ∷ 99 ∷ 97 ∷ 108 ∷ []) name

-- `address.includes(":") ? `[${address}]` : address`
abbrev pub bracketed : List ℕ → List ℕ
bracketed address = if any (λ c. c == 58) address then 91 ∷ (address ++ (93 ∷ [])) else address

module _ (is_ip : List ℕ → ℕ) where
  unfoldable pub is_public_address : List ℕ → Bool
  is_public_address address =
      let normalized = to_lower address in
      if is_ip address == 4
      then not (is_blocked_ipv4 address)
      else if not (is_ip address == 6)
      then false
      else if starts_with mapped_prefix normalized
      then not (is_blocked_ipv4 (drop 7 normalized))
      else not (is_private_ipv6 normalized)

  -- What is done with the resolver's answer; none is an exception.
  unfoldable pub with_addresses : Url → List ℕ → Option (List (List ℕ)) → Refusal ⊎ Target
  with_addresses url hostname none = inl Refusal.failed
  with_addresses url hostname (some []) = inl Refusal.private_host
  with_addresses url hostname (some (a ∷ as_)) =
      if any (λ x. not (is_public_address x)) (a ∷ as_)
      then inl Refusal.private_host
      else inr
          (record { connect_url = record url { hostname = bracketed a }; host_header = hostname })

  unfoldable pub resolve_public_remote_target :
      (List ℕ → Option (List (List ℕ))) → Url → Refusal ⊎ Target
  resolve_public_remote_target lookup url =
      let hostname = to_lower url.hostname in
      if not url.is_http
      then inl Refusal.not_http
      else if url.has_authority
      then inl Refusal.has_unsupported_authority
      else if is_local_name hostname
      then inl Refusal.private_host
      else if not (is_ip hostname == 0)
      then (if not (is_public_address hostname)
          then inl Refusal.private_host
          else inr (record { connect_url = url; host_header = hostname }))
      else with_addresses url hostname (lookup hostname)
