-- ===== src/Lookup/Dns.antt =====
-- dnslookup of assignments/pa6/util.c. getaddrinfo and inet_ntop are parameters: the list of addresses of
-- a name, and the text of an address.
use csci_3753_operating_syst.Prelude.{
  ℕ, ◌-◌, ◌≡◌, refl, inl, inr, Bool, true, false, Option, none, some, List, [], ◌∷◌, if◌then◌else◌,
  Option-cases, take,
}
use csci_3753_operating_syst.Lookup.{Text}
use csci_3753_operating_syst.Prelude.Opt.{◌>>=◌}

-- `sizeof(ipstr)`
abbrev pub inet6_addrstrlen : ℕ
inet6_addrstrlen = 46

-- "UNHANDELED"
abbrev pub unhandled : Text
unhandled = 85 ∷ 78 ∷ 72 ∷ 65 ∷ 78 ∷ 68 ∷ 69 ∷ 76 ∷ 69 ∷ 68 ∷ []

pub data Family : Type 0 where
  af_inet : Family
  af_inet6 : Family
  other : Family

pub record Address : Type 0 where
  pub family : Family
  pub addr : List ℕ

module _ (getaddrinfo : Text → Option (List Address)) (inet_ntop : List ℕ → Option Text) where
  -- `ipstr`
  unfoldable pub ipstr : Family → List ℕ → Option Text
  ipstr af_inet addr = inet_ntop addr >>= λ ipv4str. some (take (inet6_addrstrlen - 1) ipv4str)
  ipstr af_inet6 addr = some unhandled
  ipstr other addr = some unhandled

  -- The loop over the results; `at_head` is `result == headresult`. `none` in the result is a string
  -- that was not written.
  unfoldable pub each_result : ℕ → Bool → List Address → Option Text → Option (Option Text)
  unfolding ipstr
  each_result max_size at_head [] first_ip = some first_ip
  each_result max_size at_head (a ∷ results) first_ip = ipstr a.family a.addr >>= λ ip.
      each_result max_size false results
        (if at_head then some (take (max_size - 1) ip) else first_ip)

  -- `dnslookup`; `none` is UTIL_FAILURE.
  unfoldable pub dnslookup : ℕ → Text → Option (Option Text)
  unfolding each_result
  dnslookup max_size hostname =
      getaddrinfo hostname >>= λ results. each_result max_size true results none

  -- Every address has a text.
  abbrev pub all_texts : List Address → Bool
  all_texts [] = true
  all_texts (a ∷ results) = elim (ipstr a.family a.addr) [
    | none ↦ false
    | some ip ↦ all_texts results
  ]

  rest_kept :
      (max_size : ℕ) (results : List Address) (first_ip : Option Text)
      → each_result max_size false results first_ip
        ≡ (if all_texts results then some first_ip else none)
  unfolding each_result
  rest_kept max_size [] first_ip = refl
  rest_kept max_size (a ∷ results) first_ip = elim (Option-cases (ipstr a.family a.addr)) [
    | inl none_of ↦ rw (none_of, all_texts) refl
    | inr (ip, text) ↦ rw (text, all_texts) (rest_kept max_size results first_ip)
  ]

  -- For a name with addresses `dnslookup` gives the text of the first address, cut to the size of the
  -- caller's string, if every address has a text; it fails if any has none.
  pub dnslookup_first :
      (max_size : ℕ) (hostname : Text) (a : Address) (results : List Address) (ip : Text)
      → getaddrinfo hostname ≡ some (a ∷ results)
      → ipstr a.family a.addr ≡ some ip
      → dnslookup max_size hostname
        ≡ (if all_texts results then some (some (take (max_size - 1) ip)) else none)
  unfolding dnslookup each_result
  dnslookup_first max_size hostname a results ip found text =
      rw (found, text) (rest_kept max_size results (some (take (max_size - 1) ip)))
