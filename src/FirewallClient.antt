-- ===== src/FirewallClient.antt =====
-- The client of the firewall agent, firewall_client.go. Each call opens one connection, whose
-- outcome is chosen by a list: `refused` is a dial or a write that fails, `lost` an answer that
-- cannot be read.
use kanyigo.Base.{
  ◌≡◌, refl, String, Bool, true, false, not, Option, none, some, List, str_eq, if◌then◌else◌, inl,
  inr, Bool-cases, arith,
}
use kanyigo.Base.Int.{ℤ, pos}
use kanyigo.Sql.{Outcome, done, refused, lost, first, rest}
use kanyigo.Agent.{Request, Response, Step}

pub record FirewallClient : Type 0 where
  pub socket_path : String

unfoldable pub available : Option FirewallClient → Bool
available none = false
available (some c) = not (str_eq c.socket_path "")

-- The kernel behind the agent, and the outcomes of the connections to come.
pub record Link {ℓ} (K : Type ℓ) : Type ℓ where
  pub kernel : K
  pub connections : List Outcome

-- `!response.OK`
unfoldable pub response_error : Response → Option String
response_error r =
    if r.ok
    then none
    else some (if str_eq r.message "" then "firewall operation failed" else r.message)

module _ {ℓ} {K : Type ℓ} (agent : Option Request → K → Response × K) where
  -- The answer, if it arrives.
  abbrev exchanged : Outcome → List Outcome → Response × K → Option String × Link K
  exchanged done os (r, k) = (response_error r, record { kernel = k; connections = os })
  exchanged refused os (r, k) =
      (some "connect firewall agent", record { kernel = k; connections = os })
  exchanged lost os (r, k) =
      (some "read firewall response", record { kernel = k; connections = os })

  abbrev exchange : Outcome → Request → Link K → Option String × Link K
  exchange refused req l =
      (some "connect firewall agent", record l { connections = rest l.connections })
  exchange done req l = exchanged done (rest l.connections) (agent (some req) l.kernel)
  exchange lost req l = exchanged lost (rest l.connections) (agent (some req) l.kernel)

  unfoldable pub request : Option FirewallClient → Request → Step (Link K)
  request c req l =
      if not (available c)
      then (some "firewall agent socket is not configured", l)
      else exchange (first l.connections) req l

  unfoldable pub status : Option FirewallClient → Step (Link K)
  status c = request c (record { action = "status"; ip = ""; timeout_seconds = pos 0 })

  unfoldable pub block : Option FirewallClient → String → ℤ → Step (Link K)
  block c ip timeout = request c (record { action = "block"; ip = ip; timeout_seconds = timeout })

  unfoldable pub unblock : Option FirewallClient → String → Step (Link K)
  unblock c ip = request c (record { action = "unblock"; ip = ip; timeout_seconds = pos 0 })

  exchange_ok :
      (o : Outcome) (req : Request) (l : Link K)
      → (exchange o req l).0 ≡ none
      → ((agent (some req) l.kernel).0.ok ≡ true)
        × ((exchange o req l).1.kernel ≡ (agent (some req) l.kernel).1)
  unfolding response_error
  exchange_ok refused req l h = absurd cc
  exchange_ok lost req l h = absurd cc
  exchange_ok done req l h = (ground arith, refl)

  -- A call that returns no error was granted by the agent.
  pub request_ok :
      (c : Option FirewallClient) (req : Request) (l : Link K)
      → (request c req l).0 ≡ none
      → ((agent (some req) l.kernel).0.ok ≡ true)
        × ((request c req l).1.kernel ≡ (agent (some req) l.kernel).1)
  unfolding request
  request_ok c req l h = elim (Bool-cases (available c)) [
    | inl e ↦ rw e (exchange_ok (first l.connections) req l (rw e at h))
    | inr e ↦ let h' = rw e at h in absurd cc
  ]
