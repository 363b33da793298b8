-- ===== src/Host/FullNames.antt =====
-- The cached full name, and the comparison of hosts that rests on it.
use okssystem.Prelude.{
  ℕ, ◌==◌, Bool-cases, Option-cases, ◌⊎◌, inl, inr, ◌≡◌, ◌≢◌, refl, ap, ◌∙◌, false, arith, [], ◌∷◌,
  Text, text_eq, is_empty, some, none,
}
use okssystem.Calls.{HostCalls, UtsName}
use okssystem.StringMemoryArea.{c_str}
use okssystem.Host.{
  Host, LocalHost, expand, resolve_name, resolve_address, full_name, same_host, local_host,
  local_instance, local_name, full_local_name, getfullhost,
}

text_eq_comm : (a b : Text) → text_eq a b ≡ text_eq b a
text_eq_comm [] [] = refl
text_eq_comm [] (y ∷ b) = refl
text_eq_comm (x ∷ a) [] = refl
text_eq_comm (x ∷ a) (y ∷ b) = ground (arith, text_eq_comm a b)

full_is_empty : (t : Text) → t ≢ [] → is_empty t ≡ false
full_is_empty [] h = absurd (h refl)
full_is_empty (x ∷ t) h = refl

module _ {W : Type 0} (net : HostCalls W) where
  full_name_again : (h : Host) (w : W) → h.m_full_name ≢ [] → full_name net h w ≡ h
  unfolding full_name
  full_name_again h w full = ground (arith, full_is_empty h.m_full_name full)

  -- Once two hosts with a full name have been compared, their comparison gives the same answer in
  -- both orders and in every later state of the name service.
  pub same_host_again :
      (a b : Host) (w w' : W)
      → (full_name net a w).m_full_name ≢ []
      → (full_name net b w).m_full_name ≢ []
      → (same_host net (full_name net a w) (full_name net b w) w' ≡ same_host net a b w)
        × (same_host net (full_name net b w) (full_name net a w) w' ≡ same_host net a b w)
  unfolding same_host
  same_host_again a b w w' ha hb =
      let p = ap (λ h. h.m_full_name) (full_name_again (full_name net a w) w' ha) in
      let q = ap (λ h. h.m_full_name) (full_name_again (full_name net b w) w' hb) in
      let fa = (full_name net a w).m_full_name in
      let fb = (full_name net b w).m_full_name in
      let both : same_host net (full_name net a w) (full_name net b w) w' ≡ same_host net a b w =
        ap (λ x. text_eq x (full_name net (full_name net b w) w').m_full_name) p
        ∙ ap (λ y. text_eq fa y) q in
      (
        both,
        text_eq_comm (full_name net (full_name net b w) w').m_full_name
              (full_name net (full_name net a w) w').m_full_name
            ∙ both,
      )

  -- What the name service makes of a name: the name itself if it finds no address or the address 0,
  -- and otherwise the name of the address, or its digits if it has none.
  abbrev pub IsFullName : Text → W → Text → Type 0
  IsFullName name w full =
      (((net.getaddrinfo name w ≡ none) ⊎ (net.getaddrinfo name w ≡ some 0)) × (full ≡ name))
      ⊎ ((address : ℕ) × (address ≢ 0)
          × (net.getaddrinfo name w ≡ some address)
          × ((net.getnameinfo address w ≡ some full)
              ⊎ ((net.getnameinfo address w ≡ none) × (full ≡ net.inet_ntoa address))))

  expand-IsFullName : (name : Text) (w : W) → IsFullName name w (expand net name w)
  unfolding expand resolve_name resolve_address
  expand-IsFullName name w = elim (Option-cases (net.getaddrinfo name w)) [
    | inl e ↦ inl (inl e, ground (arith, e))
    | inr (address, e) ↦ elim (Bool-cases (address == 0)) [
      | inl z ↦ inl (inr (ground (arith, e, z)), ground (arith, e, z))
      | inr z ↦ inr (
        address,
        (λ zero. ground (arith, z, zero)),
        e,
        elim (Option-cases (net.getnameinfo address w)) [
          | inl k ↦ inr (k, ground (arith, e, z, k))
          | inr (buffer, k) ↦ inl (ground (arith, e, z, k))
        ],
      )
    ]
  ]

  -- If `uname` answers, the first call of `full_local_name` gives what the name service makes of the
  -- name of the node (`IsFullName`). Where that is not the empty text, every later call of
  -- `full_local_name` and `getfullhost` gives the same name, up to its first NUL for the latter.
  -- `local_name` gives the name of the node in every case. Nothing of this depends on what has
  -- become of the name service and of the system's own name since then.
  pub full_local_name_again :
      (u : UtsName) (w later : W)
      → net.uname w ≡ some u
      → (full : Text) × (l : LocalHost) × IsFullName u.nodename w full
        × (full_local_name net none w ≡ (full, l))
        × (full ≢ []
            → (full_local_name net (some l) later ≡ (full, l))
              × (getfullhost net (some l) later ≡ (c_str full, l)))
        × (local_name net (some l) later ≡ (u.nodename, l))
  unfolding full_local_name getfullhost local_name local_instance local_host full_name
  full_local_name_again u w later named = (
    expand net u.nodename w,
    (full_local_name net none w).1,
    expand-IsFullName u.nodename w,
    ground (arith, named),
    (λ full.
        let e = full_is_empty (expand net u.nodename w) full in
        (ground (arith, named, e), ground (arith, named, e))),
    ground (arith, named),
  )
