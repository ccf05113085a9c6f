-- ===== src/Agent/Effect.antt =====
-- What a request that the agent grants has done to the sets of the kernel.
use kanyigo.Base.{
  ◌≡◌, refl, String, Bool, true, false, Option, none, some, arith, ◌⊎◌, inl, inr, Bool-cases,
  str_eq,
}
use kanyigo.Base.Int.{ℤ}
use kanyigo.Base.Text.{trim_space, str_contains}
use kanyigo.Net.{Ip, Texts, contains_ip, is_protected}
use kanyigo.Agent.{
  Request, Agent, add, del, CommandResult, succeeded, failed, Tools, is_timeout, respond, set_of,
  run_error, unblock_error, run, block, unblock, change, change_read, act, handle,
}

-- ipset: an added address is in the set, a deleted one is not, nor is one that the error says is not.
pub record IsIpset {ℓ} {K : Type ℓ} (exec_command : Tools K) (members : String → String → K → Bool)
    : Type ℓ where
  pub added :
      (binary set ip : String) (timeout : Option ℤ) (k : K)
      → (exec_command binary (add set ip timeout) k).0 ≡ succeeded
      → members set ip (exec_command binary (add set ip timeout) k).1 ≡ true
  pub deleted :
      (binary set ip : String) (k : K)
      → (exec_command binary (del set ip) k).0 ≡ succeeded
      → members set ip (exec_command binary (del set ip) k).1 ≡ false
  pub missing :
      (binary set ip cause output : String) (k : K)
      → (exec_command binary (del set ip) k).0 ≡ failed cause output
      → str_contains "is NOT in set" output ≡ true
      → members set ip (exec_command binary (del set ip) k).1 ≡ false

run_error-none : (binary : String) (r : CommandResult) → run_error binary r ≡ none → r ≡ succeeded
unfolding run_error
run_error-none binary succeeded h = refl
run_error-none binary (failed cause output) h = absurd cc

unblock_error-none :
    (binary : String) (r : CommandResult)
    → unblock_error binary r ≡ none
    → (r ≡ succeeded)
      ⊎ ((cause : String) × (output : String) × (r ≡ failed cause output)
          × (str_contains "is NOT in set" output ≡ true))
unfolding unblock_error
unblock_error-none binary succeeded h = inl refl
unblock_error-none binary (failed cause output) h =
    elim (Bool-cases (str_contains "is NOT in set" output)) [
      | inl e ↦ inr (cause, output, refl, e)
      | inr e ↦ let h' = rw e at h in absurd cc
    ]

module _ {ℓ} {K : Type ℓ} (exec_command : Tools K) (texts : Texts) (a : Agent)
    (members : String → String → K → Bool) (ipset : IsIpset exec_command members) where
  block_added :
      (ip : Ip) (t : ℤ) (k : K)
      → (block exec_command texts a ip t k).0 ≡ none
      → members (set_of a ip) (texts.ip_string ip) (block exec_command texts a ip t k).1 ≡ true
  unfolding block run
  block_added ip t k h =
      ipset.added a.ipset_bin (set_of a ip) (texts.ip_string ip) _ k
        (run_error-none a.ipset_bin _ h)

  unblock_deleted :
      (ip : Ip) (k : K)
      → (unblock exec_command texts a ip k).0 ≡ none
      → members (set_of a ip) (texts.ip_string ip) (unblock exec_command texts a ip k).1 ≡ false
  unfolding unblock
  unblock_deleted ip k h = elim (unblock_error-none a.ipset_bin _ h) [
    | inl e ↦ ipset.deleted a.ipset_bin (set_of a ip) (texts.ip_string ip) k e
    | inr (cause, output, e, c) ↦
        ipset.missing a.ipset_bin (set_of a ip) (texts.ip_string ip) cause output k e c
  ]

  -- What a granted request says of its address.
  abbrev pub Blocked : Request → Ip → K → Type 0
  Blocked req ip k =
      (is_protected ip ≡ false)
      × (contains_ip a.allowlist ip ≡ false)
      × (is_timeout req.timeout_seconds ≡ true)
      × (members (set_of a ip) (texts.ip_string ip) k ≡ true)

  abbrev pub Unblocked : Ip → K → Type 0
  Unblocked ip k =
      (is_protected ip ≡ false) × (members (set_of a ip) (texts.ip_string ip) k ≡ false)

  change-Blocked :
      (req : Request) (ip : Ip) (k : K)
      → str_eq req.action "block" ≡ true
      → (change exec_command texts a req ip k).0 ≡ none
      → Blocked req ip (change exec_command texts a req ip k).1
  unfolding change
  change-Blocked req ip k b h = let d = block_added ip req.timeout_seconds k in ground (arith, d)

  change-Unblocked :
      (req : Request) (ip : Ip) (k : K)
      → str_eq req.action "block" ≡ false
      → (change exec_command texts a req ip k).0 ≡ none
      → Unblocked ip (change exec_command texts a req ip k).1
  unfolding change
  change-Unblocked req ip k b h = let d = unblock_deleted ip k in ground (arith, d)

  read-Blocked :
      (req : Request) (o : Option Ip) (k : K)
      → str_eq req.action "block" ≡ true
      → (change_read exec_command texts a req o k).0 ≡ none
      → (ip : Ip) × (o ≡ some ip) × Blocked req ip (change_read exec_command texts a req o k).1
  unfolding change_read
  read-Blocked req none k b h = absurd cc
  read-Blocked req (some ip) k b h = (ip, refl, change-Blocked req ip k b h)

  read-Unblocked :
      (req : Request) (o : Option Ip) (k : K)
      → str_eq req.action "block" ≡ false
      → (change_read exec_command texts a req o k).0 ≡ none
      → (ip : Ip) × (o ≡ some ip) × Unblocked ip (change_read exec_command texts a req o k).1
  unfolding change_read
  read-Unblocked req none k b h = absurd cc
  read-Unblocked req (some ip) k b h = (ip, refl, change-Unblocked req ip k b h)

  act_blocked :
      (ip : String) (t : ℤ) (k : K)
      → act exec_command texts a (record { action = "block"; ip = ip; timeout_seconds = t }) k
        ≡ change_read exec_command texts a
            (record { action = "block"; ip = ip; timeout_seconds = t })
            (texts.parse_ip (trim_space ip))
            k
  unfolding act
  act_blocked ip t k = refl

  act_unblocked :
      (ip : String) (t : ℤ) (k : K)
      → act exec_command texts a (record { action = "unblock"; ip = ip; timeout_seconds = t }) k
        ≡ change_read exec_command texts a
            (record { action = "unblock"; ip = ip; timeout_seconds = t })
            (texts.parse_ip (trim_space ip))
            k
  unfolding act
  act_unblocked ip t k = refl

  respond_ok : (e : Option String) → (respond e).ok ≡ true → e ≡ none
  respond_ok none h = refl
  respond_ok (some m) h = absurd cc

  -- A block request that the agent grants named an address that is neither protected nor in the
  -- allowlist, with a timeout of 0 to 365 days, and the address is now in the set of its family.
  pub handle-Blocked :
      (text : String) (t : ℤ) (k : K)
      → (handle exec_command texts a
          (some (record { action = "block"; ip = text; timeout_seconds = t }))
          k).0.ok
        ≡ true
      → (ip : Ip) × (texts.parse_ip (trim_space text) ≡ some ip)
        × Blocked
            (record { action = "block"; ip = text; timeout_seconds = t })
            ip
            (handle exec_command texts a
              (some (record { action = "block"; ip = text; timeout_seconds = t }))
              k).1
  unfolding handle
  handle-Blocked text t k h =
      let step = act_blocked text t k in
      rw step (
        read-Blocked (record { action = "block"; ip = text; timeout_seconds = t })
          (texts.parse_ip (trim_space text)) k refl (rw step at (respond_ok _ h)))

  -- An unblock request that the agent grants named an address that is not protected, and the
  -- address is now not in the set of its family.
  pub handle-Unblocked :
      (text : String) (t : ℤ) (k : K)
      → (handle exec_command texts a
          (some (record { action = "unblock"; ip = text; timeout_seconds = t }))
          k).0.ok
        ≡ true
      → (ip : Ip) × (texts.parse_ip (trim_space text) ≡ some ip)
        × Unblocked ip
            (handle exec_command texts a
              (some (record { action = "unblock"; ip = text; timeout_seconds = t }))
              k).1
  unfolding handle
  handle-Unblocked text t k h =
      let step = act_unblocked text t k in
      rw step (
        read-Unblocked (record { action = "unblock"; ip = text; timeout_seconds = t })
          (texts.parse_ip (trim_space text)) k refl (rw step at (respond_ok _ h)))
