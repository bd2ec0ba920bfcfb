-- ===== src/Discovery/Errors/Transient.antt =====
-- The errors that `classify_error` of database/poc/discovery_execution.py lets an execution retry.
use pepeuchiacluster.Prelude.{
  ℕ, ◌≡◌, refl, ◌⊎◌, inl, inr, Bool, true, false, ◌&&◌, String, List, [], ◌∷◌, Option, none, some,
  any, all, leb, ◌==◌, ==_iff, arith, Bool-cases,
}
use pepeuchiacluster.Discovery.Errors.{
  Raised, http_status, url_error, timeout_error, network_error, connection_error, incomplete_read,
  RetryAfter, classify_error, classify_status,
}

-- the statuses that a policy may name
abbrev pub transient : List ℕ
transient = 429 ∷ 500 ∷ 502 ∷ 503 ∷ 504 ∷ []

-- every status of the list is one of those
abbrev pub IsTransient : List ℕ → Type 0
IsTransient statuses = all (λ code. any (λ c. code == c) transient) statuses ≡ true

listed_transient :
    (statuses : List ℕ) (code : ℕ)
    → IsTransient statuses
    → any (λ c. code == c) statuses ≡ true
    → any (λ c. code == c) transient ≡ true
listed_transient [] code h e = cc
listed_transient (s ∷ ss) code h e = elim (Bool-cases (code == s)) [
  | inl same ↦ let same_code = (==_iff code s).0 same in ground arith
  | inr other ↦ listed_transient ss code (ground arith) (ground arith)
]

retried_status :
    (source : String) (statuses : List ℕ) (code : Option ℕ) (header : Option (Option RetryAfter))
    → IsTransient statuses
    → (classify_status source statuses code header).retryable ≡ true
    → (c : ℕ) × (value : Option RetryAfter) × (code ≡ some c)
      × (header ≡ some value)
      × (any (λ d. c == d) statuses ≡ true)
      × (any (λ d. c == d) transient ≡ true)
unfolding classify_status
retried_status source statuses none header h e = cc
retried_status source statuses (some code) none h e = cc
retried_status source statuses (some code) (some header) h e =
    elim (Bool-cases (leb 100 code && leb code 599)) [
      | inl valid ↦
          let listed : any (λ d. code == d) statuses ≡ true = ground arith in
          (code, header, refl, refl, listed, listed_transient statuses code h listed)
      | inr invalid ↦ ground arith
    ]

-- the failures of a connection or of its time limit
abbrev pub IsTransport : Raised → Type 0
IsTransport timeout_error = Unit
IsTransport (url_error b) = Unit
IsTransport network_error = Unit
IsTransport connection_error = Unit
IsTransport incomplete_read = Unit
IsTransport _ = ⊥

-- an HTTP status that is listed and transient, whose header could be read
abbrev pub IsListed : List ℕ → Raised → Type 0
IsListed statuses e =
    (code : ℕ) × (header : Option RetryAfter) × (e ≡ http_status (some code) (some header))
    × (any (λ c. code == c) statuses ≡ true)
    × (any (λ c. code == c) transient ≡ true)

pub retried :
    (source : String) (statuses : List ℕ) (transport : Bool) (e : Raised)
    → IsTransient statuses
    → (classify_error source statuses transport e).retryable ≡ true
    → ((transport ≡ true) × IsTransport e) ⊎ IsListed statuses e
unfolding classify_error
retried source statuses transport (http_status code header) h e =
    let (c, value, same, same_header, listed, is_transient) =
      retried_status source statuses code header h e in
    inr (c, value, rw same (rw same_header refl), listed, is_transient)
retried source statuses transport timeout_error h e = inl (e, tt)
retried source statuses transport (url_error true) h e = inl (e, tt)
retried source statuses transport (url_error false) h e = inl (e, tt)
retried source statuses transport network_error h e = inl (e, tt)
retried source statuses transport connection_error h e = inl (e, tt)
retried source statuses transport incomplete_read h e = inl (e, tt)
retried source statuses transport _ h e = cc
