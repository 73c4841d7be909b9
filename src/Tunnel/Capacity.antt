-- ===== src/Tunnel/Capacity.antt =====
-- How many tunnels src/modules/tunnel/tunnel.service.ts keeps.
use webhook_backend.Prelude.{
  ℕ, suc, ◌≤◌, ◌<◌, ◌≡◌, ◌⊎◌, inl, inr, refl, ap, ◌∙◌, Bool, true, false, none, [], ◌∷◌, ◌++◌,
  length, length-append, all, any, Collection, find_by_id, delete_key, update_by_id, is_some,
  if-true, if-false, ◌==◌, if◌then◌else◌, arith, Bool-cases,
}
use webhook_backend.Tunnel.{
  TunnelMeta, Store, max_tunnels, set_key, is_active, delete_tunnel, is_stale, clean_each,
  cleanup_expired_tunnels, evict, is_full, make_room, create_tunnel,
}

-- Every tunnel has a session that is open.
abbrev pub all_active : Store → Bool
all_active s = all (λ (e : ℕ × TunnelMeta). is_active s e.0) s.meta

length-delete_key : (k : ℕ) (c : Collection TunnelMeta) → length (delete_key k c) ≤ length c
length-delete_key k [] = omega arith
length-delete_key k ((j, m) ∷ c) = ground (arith, length-delete_key k c)

length-update :
    (k : ℕ) (m : TunnelMeta) (c : Collection TunnelMeta)
    → length (update_by_id k (λ _. m) c) ≡ length c
length-update k m [] = refl
length-update k m ((j, n) ∷ c) = ground (arith, length-update k m c)

length-set_key-le :
    (k : ℕ) (m : TunnelMeta) (c : Collection TunnelMeta) → length (set_key k m c) ≤ suc (length c)
length-set_key-le k m c = elim (Bool-cases (is_some (find_by_id k c))) [
  | inl known ↦ ground (arith, known, length-update k m c)
  | inr fresh ↦ rw fresh (omega (arith, length-append c ((k, m) ∷ [])))
]

step-le :
    (b : Bool) (k : ℕ) (s : Store)
    → length (if b then delete_tunnel k s else s).meta ≤ length s.meta
step-le true k s = length-delete_key k s.meta
step-le false k s = omega arith

length-clean_each :
    (now : ℕ) (entries : Collection TunnelMeta) (s : Store)
    → length (clean_each now entries s).meta ≤ length s.meta
length-clean_each now [] s = omega arith
length-clean_each now (e ∷ entries) s = omega (
  arith,
  length-clean_each now entries (if is_stale now s e then delete_tunnel e.0 s else s),
  step-le (is_stale now s e) e.0 s,
)

-- Whether the key is there.
abbrev has_key : ℕ → Collection TunnelMeta → Bool
has_key k c = any (λ (e : ℕ × TunnelMeta). e.0 == k) c

length-delete_key-lt :
    (k : ℕ) (c : Collection TunnelMeta) → has_key k c ≡ true → length (delete_key k c) < length c
length-delete_key-lt k [] h = absurd (ground arith)
length-delete_key-lt k ((j, m) ∷ c) h = elim (Bool-cases (j == k)) [
  | inl same ↦ rw same (omega (arith, length-delete_key k c))
  | inr other ↦ rw other (omega (arith, length-delete_key-lt k c (ground (arith, h, other))))
]

-- The tunnel that goes.
evict-first :
    (entries : Collection TunnelMeta) (s : Store)
    → all (λ (e : ℕ × TunnelMeta). is_active s e.0) entries ≡ false
    → (k : ℕ) × (has_key k entries ≡ true) × (evict entries s ≡ delete_tunnel k s)
evict-first [] s h = (absurd (ground arith), absurd (ground arith), absurd (ground arith))
evict-first ((id, m) ∷ entries) s h = elim (Bool-cases (is_active s id)) [
  | inr idle ↦ (id, ground arith, rw idle refl)
  | inl busy ↦
      let (k, known, evicts) = evict-first entries s (ground (arith, h, busy)) in
      (k, ground (arith, known), rw busy evicts)
]

evict-all :
    (entries : Collection TunnelMeta) (s : Store)
    → all (λ (e : ℕ × TunnelMeta). is_active s e.0) entries ≡ true
    → evict entries s ≡ s
evict-all [] s h = refl
evict-all ((id, m) ∷ entries) s h = elim (Bool-cases (is_active s id)) [
  | inl busy ↦ rw busy (evict-all entries s (ground (arith, h, busy)))
  | inr idle ↦ absurd (ground (arith, h, idle))
]

-- There is room: no five hundred tunnels are left after the clean-up, or one of them is idle.
abbrev pub HasRoom : (now : ℕ) → Store → Type 0
HasRoom now s =
    let cleaned = cleanup_expired_tunnels now s in
    (length cleaned.meta < max_tunnels) ⊎ (all_active cleaned ≡ false)

make_room-lt :
    (now : ℕ) (s : Store)
    → length s.meta ≤ max_tunnels
    → HasRoom now s
    → length (make_room now s).meta < max_tunnels
make_room-lt now s bounded room =
    let cleaned = cleanup_expired_tunnels now s in
    elim (Bool-cases (is_full s)) [
      | inr some_free ↦ rw some_free (ground (arith, some_free))
      | inl full ↦ elim (Bool-cases (is_full cleaned)) [
        | inr now_free ↦ rw (full, now_free) (ground (arith, now_free))
        | inl still_full ↦ elim room [
          | inl fewer ↦ absurd (ground (arith, fewer, still_full))
          | inr idle ↦
              let (k, known, evicts) = evict-first cleaned.meta cleaned idle in
              rw (full, still_full)
                (omega (
                  arith,
                  ap (λ (t : Store). length t.meta) evicts,
                  length-delete_key-lt k cleaned.meta known,
                  length-clean_each now s.meta s,
                ))
        ]
      ]
    ]

-- As long as there is room, the number of tunnels never exceeds five hundred: `createTunnel` keeps
-- that bound.
pub create_tunnel-le :
    (id user now : ℕ) (s : Store)
    → length s.meta ≤ max_tunnels
    → HasRoom now s
    → length (create_tunnel id user now s).meta ≤ max_tunnels
unfolding create_tunnel
create_tunnel-le id user now s bounded room = omega (
  arith,
  make_room-lt now s bounded room,
  length-set_key-le id
      (record { user_id = user; created_at = now; forwarded = 0; last_event_at = none })
      (make_room now s).meta,
)

-- When all tunnels that are left after the clean-up are in use, five hundred or more of them, then
-- `createTunnel` adds one more, under a new id: the limit does not hold.
pub create_tunnel-exceeds :
    (id user now : ℕ) (s : Store)
    → let cleaned = cleanup_expired_tunnels now s in
      max_tunnels ≤ length cleaned.meta
      → all_active cleaned ≡ true
      → find_by_id id cleaned.meta ≡ none
      → max_tunnels < length (create_tunnel id user now s).meta
unfolding create_tunnel
create_tunnel-exceeds id user now s crowded busy fresh =
    let cleaned = cleanup_expired_tunnels now s in
    let new : TunnelMeta = record {
      user_id = user;
      created_at = now;
      forwarded = 0;
      last_event_at = none;
    } in
    let full : is_full s ≡ true = ground (arith, crowded, length-clean_each now s.meta s) in
    let still_full : is_full cleaned ≡ true = ground (arith, crowded) in
    let kept : make_room now s ≡ cleaned =
      if-true {b = is_full s} _ full
      ∙ if-true {b = is_full cleaned} _ still_full
      ∙ evict-all cleaned.meta cleaned busy in
    let added : set_key id new cleaned.meta ≡ cleaned.meta ++ (id, new) ∷ [] =
      if-false {b = is_some (find_by_id id cleaned.meta)} _ (ap is_some fresh) in
    omega (
      arith,
      crowded,
      ap (λ (t : Store). length (set_key id new t.meta)) kept,
      ap length added,
      length-append cleaned.meta ((id, new) ∷ []),
    )
