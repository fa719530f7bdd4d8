-- ===== src/Policy/Laws.antt =====
-- agent/updates/policy.go: what each accessor reads back after each change.
use qrx_node_suite.Prelude.{
  ◌≡◌, ◌≢◌, ◌⊎◌, refl, ap, String, Bool, true, false, none, some, [], ◌∷◌, ◌==◌, eq_iff, eq_refl,
  arith, Bool-cases, inl, inr, if◌then◌else◌,
}
use qrx_node_suite.Errors.{ok, err, invalid_channel}
use qrx_node_suite.Policy.{
  Settings, Setting, Key, same_key, get, set, delete, text, update_channel, pin,
  last_manifest_released_at, boot_attempts, pending_self_update, update_lock,
  scheduled_update_window, channel_or_default, is_valid_channel, valid_channels, set_channel,
  as_lock, pinned, set_pin, clear_pin, last_released_at, record_manifest_seen, locked, set_locked,
  scheduled_window,
}

pub same_key_refl : (k : Key) → same_key k k ≡ true
unfolding same_key
same_key_refl (update_channel a) = eq_refl a
same_key_refl (pin a) = eq_refl a
same_key_refl (last_manifest_released_at a) = eq_refl a
same_key_refl (boot_attempts a) = eq_refl a
same_key_refl (pending_self_update a) = eq_refl a
same_key_refl update_lock = refl
same_key_refl scheduled_update_window = refl

same_key-same : (j k : Key) → same_key j k ≡ true → j ≡ k
unfolding same_key
same_key-same (update_channel a) (update_channel b) h = ap update_channel ((eq_iff a b).0 h)
same_key-same (pin a) (pin b) h = ap pin ((eq_iff a b).0 h)
same_key-same (last_manifest_released_at a) (last_manifest_released_at b) h =
    ap last_manifest_released_at ((eq_iff a b).0 h)
same_key-same (boot_attempts a) (boot_attempts b) h = ap boot_attempts ((eq_iff a b).0 h)
same_key-same (pending_self_update a) (pending_self_update b) h =
    ap pending_self_update ((eq_iff a b).0 h)
same_key-same update_lock update_lock h = refl
same_key-same scheduled_update_window scheduled_update_window h = refl
same_key-same _ _ h = cc

pub get-delete_self : (k : Key) (s : Settings) → get k (delete k s) ≡ none
unfolding get delete
get-delete_self k [] = refl
get-delete_self k ((j, v) ∷ s) = let r = get-delete_self k s in ground arith

pub get-delete_ne : (k l : Key) (s : Settings) → same_key k l ≡ false → get l (delete k s) ≡ get l s
unfolding get delete
get-delete_ne k l [] h = refl
get-delete_ne k l ((j, v) ∷ s) h =
    let r = get-delete_ne k l s h in
    elim (Bool-cases (same_key j k)) [
      | inl e ↦ rw (e, ap (λ (x : Key). same_key x l) (same_key-same j k e), h) r
      | inr e ↦ rw (e, r)
    ]

pub get-set_self : (k : Key) (v : Setting) (s : Settings) → get k (set k v s) ≡ some v
unfolding get set
get-set_self k v s = rw (same_key_refl k)

pub get-set_ne :
    (k l : Key) (v : Setting) (s : Settings) → same_key k l ≡ false → get l (set k v s) ≡ get l s
unfolding get set
get-set_ne k l v s h = rw (h, get-delete_ne k l s h)

differ : (a b : String) → a ≢ b → (a == b) ≡ false
differ a b h = elim (Bool-cases (a == b)) [ inl e ↦ absurd (h ((eq_iff a b).0 e)) | inr e ↦ e ]

module _ (a b : String) (n : a ≢ b) where
  channel_ne : same_key (update_channel a) (update_channel b) ≡ false
  unfolding same_key
  channel_ne = differ a b n

  pin_ne : same_key (pin a) (pin b) ≡ false
  unfolding same_key
  pin_ne = differ a b n

  released_ne : same_key (last_manifest_released_at a) (last_manifest_released_at b) ≡ false
  unfolding same_key
  released_ne = differ a b n

pub boot_ne : (c : String) → same_key (boot_attempts c) (pending_self_update c) ≡ false
unfolding same_key
boot_ne c = refl

pub pending_ne : (c : String) → same_key (pending_self_update c) (boot_attempts c) ≡ false
unfolding same_key
pending_ne c = refl

seen_ne :
    (ch c : String)
    → (same_key (last_manifest_released_at ch) (pending_self_update c) ≡ false)
      × (same_key (last_manifest_released_at ch) (boot_attempts c) ≡ false)
unfolding same_key
seen_ne ch c = (refl, refl)

-- A manifest seen changes neither a marker nor a counter of boots.
pub get-record_manifest_seen :
    (c ch at : String) (s : Settings)
    → (get (pending_self_update c) (record_manifest_seen ch at s) ≡ get (pending_self_update c) s)
      × (get (boot_attempts c) (record_manifest_seen ch at s) ≡ get (boot_attempts c) s)
unfolding record_manifest_seen
get-record_manifest_seen c ch at s = (
  get-set_ne (last_manifest_released_at ch) (pending_self_update c) (text at) s (seen_ne ch c).0,
  get-set_ne (last_manifest_released_at ch) (boot_attempts c) (text at) s (seen_ne ch c).1,
)

lock_ne :
    (c : String)
    → (same_key update_lock (pin c) ≡ false)
      × (same_key update_lock (update_channel c) ≡ false)
      × (same_key update_lock scheduled_update_window ≡ false)
unfolding same_key
lock_ne c = (refl, refl, refl)

locked-set : (b : Bool) (s : Settings) → locked (set_locked b s) ≡ ok b
unfolding locked set_locked
locked-set true s = ap as_lock (get-set_self update_lock (text "true") s)
locked-set false s = ap as_lock (get-set_self update_lock (text "false") s)

-- SetChannel refuses every channel but the five; after a successful call the component has that
-- channel, and every other component keeps its channel.
pub channel-set_channel :
    (c v fallback : String) (s : Settings)
    → ((is_valid_channel valid_channels v ≡ false) × (set_channel c v s ≡ err (invalid_channel v)))
      ⊎ ((t : Settings) × (set_channel c v s ≡ ok t)
          × (channel_or_default c fallback t ≡ ok v)
          × ((d : String)
              → c ≢ d
              → channel_or_default d fallback t ≡ channel_or_default d fallback s))
unfolding set_channel channel_or_default
channel-set_channel c v fallback s = elim (Bool-cases (is_valid_channel valid_channels v)) [
  | inl e ↦ inr (
    set (update_channel c) (text v) s,
    rw e,
    rw (get-set_self (update_channel c) (text v) s),
    λ d n. rw (get-set_ne (update_channel c) (update_channel d) (text v) s (channel_ne c d n)),
  )
  | inr e ↦ inl (e, rw e)
]

-- A pin is read back, a cleared pin is gone, and neither call moves another component's pin.
pub pinned-set_pin :
    (c v : String) (s : Settings)
    → (pinned c (set_pin c v s) ≡ ok (some v))
      × (pinned c (clear_pin c s) ≡ ok none)
      × ((d : String)
          → c ≢ d
          → (pinned d (set_pin c v s) ≡ pinned d s) × (pinned d (clear_pin c s) ≡ pinned d s))
unfolding pinned set_pin clear_pin
pinned-set_pin c v s = (
  rw (get-set_self (pin c) (text v) s),
  rw (get-delete_self (pin c) s),
  λ d n. (
    rw (get-set_ne (pin c) (pin d) (text v) s (pin_ne c d n)),
    rw (get-delete_ne (pin c) (pin d) s (pin_ne c d n)),
  ),
)

-- The update lock reads as it was last set; setting it leaves the pins, the channels and the
-- scheduled window alone.
pub locked-set_locked :
    (b : Bool) (c fallback : String) (s : Settings)
    → (locked (set_locked b s) ≡ ok b)
      × (pinned c (set_locked b s) ≡ pinned c s)
      × (channel_or_default c fallback (set_locked b s) ≡ channel_or_default c fallback s)
      × (scheduled_window (set_locked b s) ≡ scheduled_window s)
unfolding locked set_locked pinned channel_or_default scheduled_window
locked-set_locked b c fallback s = (
  locked-set b s,
  rw (get-set_ne update_lock (pin c) (text (if b then "true" else "false")) s (lock_ne c).0),
  rw (
      get-set_ne update_lock (update_channel c) (text (if b then "true" else "false")) s
        (lock_ne c).1),
  rw (
      get-set_ne update_lock scheduled_update_window (text (if b then "true" else "false")) s
        (lock_ne c).2),
)

-- A released_at that was recorded for a channel is read back for it, and no other channel's is
-- changed: the replay check of one channel does not see another's manifests.
pub last_released_at-record_manifest_seen :
    (c v : String) (s : Settings)
    → (last_released_at c (record_manifest_seen c v s) ≡ ok v)
      × ((d : String)
          → c ≢ d
          → last_released_at d (record_manifest_seen c v s) ≡ last_released_at d s)
unfolding last_released_at record_manifest_seen
last_released_at-record_manifest_seen c v s = (
  rw (get-set_self (last_manifest_released_at c) (text v) s),
  λ d n. rw (
      get-set_ne (last_manifest_released_at c) (last_manifest_released_at d) (text v) s
        (released_ne c d n)),
)
