-- ===== src/Agents/HttpGeneric/Private.antt =====
-- The addresses that the guard knows, and what it stops.
use constructor.Prelude.{
  ℕ, ◌≤◌, ◌<◌, ◌≡◌, refl, ◌∙◌, ◌↔◌, ◌⊎◌, inl, inr, String, Bool, true, false, Option, none, some,
  arith, get_or, ◌^◌, ◌*◌, ◌+◌, Bool-cases, if◌then◌else◌,
}
use constructor.Json.{Value, Fields, get}
use constructor.Outcome.{Outcome, return, raise, value_error, concat}
use constructor.Agents.Tools.{Moment}
use constructor.Agents.HttpGeneric.{
  Ip, ipv4, ipv6, is_private_name, is_private_ip, guarded, send, in_any, Internet, dotted,
  private_networks, is_private, execute,
}

-- The ranges 10.0.0.0 - 10.255.255.255 and so on.
abbrev pub Between : ℕ → ℕ → ℕ → Type 0
Between first last a = (first ≤ a) × (a ≤ last)

abbrev pub InPrivateRange : ℕ → Type 0
InPrivateRange a =
    Between (dotted 10 0 0 0) (dotted 10 255 255 255) a
    ⊎ (Between (dotted 172 16 0 0) (dotted 172 31 255 255) a
        ⊎ (Between (dotted 192 168 0 0) (dotted 192 168 255 255) a
            ⊎ (Between (dotted 127 0 0 0) (dotted 127 255 255 255) a
                ⊎ Between (dotted 169 254 0 0) (dotted 169 254 255 255) a)))

in_any-ipv4 : (a : ℕ) → (in_any (ipv4 a) private_networks ≡ true) ↔ InPrivateRange a
unfolding in_any
in_any-ipv4 a = (λ h. ground arith, λ h. ground arith)

-- The IPv6 address that stands for an IPv4 address, `::ffff:a.b.c.d`.
abbrev pub mapped : ℕ → Ip
mapped a = ipv6 (65535 * 2 ^ 32 + a)

in_any-mapped : (a : ℕ) → a < 2 ^ 32 → in_any (mapped a) private_networks ≡ false
unfolding in_any
in_any-mapped a small = ground arith

module _ (net : Internet) (moment : Moment) where
  -- The host is a literal of the address, or a name that resolves to it.
  abbrev pub HasAddress : String → Ip → Type 0
  HasAddress host ip =
      (net.ip_address host ≡ some ip)
      ⊎ ((resolved : String) × (net.ip_address host ≡ none)
          × (net.gethostbyname moment host ≡ some resolved)
          × (net.ip_address resolved ≡ some ip))

  is_private-HasAddress :
      (host : String) (ip : Ip)
      → HasAddress host ip
      → is_private net moment host ≡ in_any ip private_networks
  unfolding is_private is_private_name is_private_ip
  is_private-HasAddress host ip (inl literal) = rw (literal, is_private) refl
  is_private-HasAddress host ip (inr (resolved, name, found, address)) =
      rw (name, is_private) (rw (found, is_private_name) (rw address refl))

  -- The answer of the tool to a private address.
  abbrev pub refusal : String → Outcome Fields
  refusal host =
      raise (value_error (concat "Access to private/internal networks is not allowed: " host ""))

  execute-guarded :
      (inputs tenant : Fields) (url : Value) (parsed : Option String)
      → get "url" inputs ≡ some url
      → net.hostname url ≡ return parsed
      → execute net moment inputs tenant ≡ guarded net moment (get_or "" parsed) url inputs
  unfolding execute
  execute-guarded inputs tenant url parsed has_url host = rw has_url (rw host refl)

  guarded-private :
      (host : String) (url : Value) (inputs : Fields) {b : Bool}
      → is_private net moment host ≡ b
      → guarded net moment host url inputs
        ≡ (if b then refusal host else send net moment url inputs)
  unfolding guarded
  guarded-private host url inputs same = rw same refl

  -- A URL whose host is an IPv4 address, or a name that resolves to one, is refused without a request
  -- if the address lies in one of the five private ranges, and requested if it does not.
  pub execute-ipv4 :
      (inputs tenant : Fields) (url : Value) (parsed : Option String) (a : ℕ)
      → get "url" inputs ≡ some url
      → net.hostname url ≡ return parsed
      → HasAddress (get_or "" parsed) (ipv4 a)
      → (InPrivateRange a → execute net moment inputs tenant ≡ refusal (get_or "" parsed))
        × (¬ InPrivateRange a → execute net moment inputs tenant ≡ send net moment url inputs)
  execute-ipv4 inputs tenant url parsed a has_url host has =
      let start = execute-guarded inputs tenant url parsed has_url host in
      let same = is_private-HasAddress (get_or "" parsed) (ipv4 a) has in
      (
        λ inside. start ∙ guarded-private _ url inputs (same ∙ (in_any-ipv4 a).1 inside),
        λ outside. start ∙ guarded-private _ url inputs (same ∙ public a outside),
      )
    where
      public : (a : ℕ) → ¬ InPrivateRange a → in_any (ipv4 a) private_networks ≡ false
      public a outside = elim (Bool-cases (in_any (ipv4 a) private_networks)) [
        | inl inside ↦ absurd (outside ((in_any-ipv4 a).0 inside))
        | inr clear ↦ clear
      ]

  -- A URL whose host is the IPv6 form `::ffff:a.b.c.d` of an IPv4 address is requested, whichever the
  -- IPv4 address is: the guard knows no private address in that form.
  pub execute-mapped :
      (inputs tenant : Fields) (url : Value) (parsed : Option String) (a : ℕ)
      → get "url" inputs ≡ some url
      → net.hostname url ≡ return parsed
      → HasAddress (get_or "" parsed) (mapped a)
      → a < 2 ^ 32
      → execute net moment inputs tenant ≡ send net moment url inputs
  execute-mapped inputs tenant url parsed a has_url host has small =
      execute-guarded inputs tenant url parsed has_url host
      ∙ guarded-private _ url inputs
          (is_private-HasAddress (get_or "" parsed) (mapped a) has ∙ in_any-mapped a small)
