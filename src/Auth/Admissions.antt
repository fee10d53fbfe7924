-- ===== src/Auth/Admissions.antt =====
-- Which roles `use_role` admits.
use xkk.Common.{
  ok, ap, ◌∙◌, Result-cases, Bool-cases, ℕ, ◌≤◌, ◌≡◌, refl, inl, inr, Bool, true, false, Option,
  none, some, List, arith, if◌then◌else◌, is_empty, Option-cases,
}
use xkk.Common.Int.{ℤ, eqb_ℤ, eqb_ℤ_iff}
use xkk.Common.Keys.{Map, get, get-remove, int_key}
use xkk.Common.Bytes.{Bytes}
use xkk.Common.Bytes.{eqb_bytes, eqb_bytes_iff}
use xkk.Cache.Online.{OnlineData}
use xkk.Auth.Queue.{enqueue_login}
use xkk.Auth.UseRole.{
  AuthUseRoleReq, AuthUseRoleRsp, Gate, UseRoleAnswers, available, verify_role, gate_endpoints,
  leave_login_queue, login_queue_entry_ttl, admit_role, place_role, use_role,
}

module _ (parse_u32 : Bytes → Option ℕ) where
  -- The role that was admitted was next, the limiter admitted it, and it gets the endpoints of the Gate
  -- that was picked; it leaves the queue where that works.
  abbrev pub Admitted :
      Map ℤ ℤ → AuthUseRoleReq → ℕ → UseRoleAnswers → Map ℤ ℤ × AuthUseRoleRsp → Type 0
  Admitted q request position w (q', rsp) =
      (gate : Gate) × (w.admission ≡ some true)
      × (w.picked ≡ some gate)
      × (rsp.endpoints ≡ gate_endpoints parse_u32 gate)
      × (get request.gid q' ≡ (if w.leaves then none else get request.gid q))

  get-leave_login_queue :
      (q : Map ℤ ℤ) (gid : ℤ) (works : Bool)
      → get gid (leave_login_queue q gid works) ≡ (if works then none else get gid q)
  unfolding leave_login_queue
  get-leave_login_queue q gid true = ground (arith, get-remove gid gid q, eqb_ℤ_iff gid gid)
  get-leave_login_queue q gid false = refl

  admit_role-Admitted :
      (q : Map ℤ ℤ) (request : AuthUseRoleReq) (position : ℕ) (w : UseRoleAnswers)
      → is_empty (admit_role parse_u32 q request position w).1.endpoints ≡ false
      → Admitted q request position w (admit_role parse_u32 q request position w)
  unfolding admit_role
  admit_role-Admitted q request position w h =
      let admitted : w.admission ≡ some true = ground arith in
      elim (Option-cases w.picked) [
        | inl e ↦ let bad : true ≡ false = ground arith in absurd (cc)
        | inr (gate, e) ↦
            let offered : is_empty (gate_endpoints parse_u32 gate) ≡ false = ground arith in
            (
              gate,
              admitted,
              e,
              ground arith,
              ground (arith, get-leave_login_queue q request.gid w.leaves),
            )
      ]

  place_role_next :
      (q : Map ℤ ℤ) (request : AuthUseRoleReq) (position free : ℕ) (w : UseRoleAnswers)
      → is_empty (place_role parse_u32 q request position free w).1.endpoints ≡ false
      → (position ≤ free)
        × (place_role parse_u32 q request position free w
            ≡ admit_role parse_u32 q request position w)
  unfolding place_role
  place_role_next q request position free w h = (ground arith, ground arith)

  place_role-Admitted :
      (q : Map ℤ ℤ) (request : AuthUseRoleReq) (position free : ℕ) (w : UseRoleAnswers)
      → is_empty (place_role parse_u32 q request position free w).1.endpoints ≡ false
      → (position ≤ free)
        × Admitted q request position w (place_role parse_u32 q request position free w)
  place_role-Admitted q request position free w h =
      let (le, e) = place_role_next q request position free w h in
      (le, rw e (admit_role-Admitted q request position w (rw (← e) h)))

  module _ (precedes : ℤ → ℤ → Bool) (q : Map ℤ ℤ) (request : AuthUseRoleReq)
      (w : UseRoleAnswers) where
    abbrev joined : Map ℤ ℤ × ℕ
    joined = enqueue_login precedes q request.gid w.now_ms login_queue_entry_ttl

    refused :
        (error : AuthUseRoleRsp)
        → verify_role request w ≡ some error
        → is_empty error.endpoints ≡ true
    unfolding verify_role
    refused error v = ground arith

    verified :
        verify_role request w ≡ none
        → (w.decoded ≡ some request.gid)
          × (online : OnlineData) × (w.online ≡ ok (some online))
          × (online.token ≡ request.token)
    unfolding verify_role
    verified v = elim (Option-cases w.decoded) [
      | inl e ↦ absurd (let v' = rw (e, verify_role) at v in cc)
      | inr (gid, e) ↦ elim (Bool-cases (eqb_ℤ gid request.gid)) [
        | inr other ↦ absurd (let v' = rw (e, verify_role) at v in let v'' = rw other at v' in cc)
        | inl same ↦ elim (Result-cases w.online) [
          | inr (x, f) ↦
              absurd (let v' = rw (e, f, verify_role) at v in let v'' = rw same at v' in cc)
          | inl (none, f) ↦
              absurd (let v' = rw (e, f, verify_role) at v in let v'' = rw same at v' in cc)
          | inl (some online, f) ↦ elim (Bool-cases (eqb_bytes online.token request.token)) [
            | inr g ↦
                absurd (let v' = rw (e, f, verify_role) at v in let v'' = rw (same, g) at v' in cc)
            | inl g ↦
                let exact = (eqb_ℤ_iff gid request.gid).0 same in
                (e ∙ ap some exact, online, f, (eqb_bytes_iff online.token request.token).0 g)
          ]
        ]
      ]
    ]

    use_role_unknown :
        w.gates ≡ none → is_empty (use_role parse_u32 precedes q request w).1.endpoints ≡ true
    unfolding use_role verify_role
    use_role_unknown e = ground arith

    use_role_next :
        (gates : List Gate)
        → w.gates ≡ some gates
        → is_empty (use_role parse_u32 precedes q request w).1.endpoints ≡ false
        → (verify_role request w ≡ none)
          × (use_role parse_u32 precedes q request w
              ≡ place_role parse_u32 joined.0 request joined.1 (available gates) w)
    unfolding use_role
    use_role_next gates e h = elim (Option-cases (verify_role request w)) [
      | inl v ↦ (v, ground arith)
      | inr (error, v) ↦
          let bad : is_empty (use_role parse_u32 precedes q request w).1.endpoints ≡ true =
            ground (arith, refused error v) in
          absurd (cc)
    ]

    -- A role gets endpoints only if its token decodes to its gid and is the token of its online state in
    -- Redis, its place in the queue is within the free
    -- places of the usable Gates, and the limiter admits it. They are those of the Gate that was picked,
    -- and the role leaves the queue, unless Redis fails.
    pub use_role-Admitted :
        is_empty (use_role parse_u32 precedes q request w).1.endpoints ≡ false
        → (gates : List Gate) × (w.gates ≡ some gates)
          × (w.decoded ≡ some request.gid)
          × ((online : OnlineData) × (w.online ≡ ok (some online)) × (online.token ≡ request.token))
          × (joined.1 ≤ available gates)
          × Admitted joined.0 request joined.1 w (use_role parse_u32 precedes q request w)
    use_role-Admitted h = elim (Option-cases w.gates) [
      | inl e ↦ let bad = use_role_unknown e in absurd (cc)
      | inr (gates, e) ↦
          let (v, next) = use_role_next gates e h in
          let (decoded, online, stored, token) = verified v in
          let (le, a) =
            place_role-Admitted joined.0 request joined.1 (available gates) w (rw (← next) h) in
          (gates, e, decoded, (online, stored, token), le, rw next a)
    ]
