-- ===== src/Audit/Normalize/Bounds.antt =====
-- What `normalize` guarantees of a stored event.
use oneinstack_panel.Common.{
  ℕ, ◌+◌, ◌≤◌, ◌<◌, ◌≡◌, refl, ◌⊎◌, inl, inr, false, [], ◌∷◌, arith, All, Bool-cases, ◌||◌, leb,
  ◌≢◌, if◌then◌else◌,
}
use oneinstack_panel.Common.Int.{ℤ}
use oneinstack_panel.Text.{
  Text, codes, is_empty, is_control, is_space, rune_len, byte_len, trim_space, to_lower,
}
use oneinstack_panel.Text.Laws.{
  rune_len_bounds, byte_len-trim_space, All-trim_space, trim_space-plain, StartsPlain, EndsPlain,
  text_eq_iff,
}
use oneinstack_panel.Audit.{EventInput, EventPayload, Signer}
use oneinstack_panel.Audit.Normalize.{
  written_rune, sanitize_from, sanitize, sanitize_default, normal_status, normal_outcome,
  upper_text, normalize,
}

-- The loop stops after the rune that reaches the limit, which may pass it by three bytes.
byte_len-sanitize_from :
    (limit len : ℕ) (s : Text)
    → len < limit
    → len + byte_len (sanitize_from limit len s) ≤ limit + 3
unfolding sanitize_from byte_len
byte_len-sanitize_from limit len [] h = omega arith
byte_len-sanitize_from limit len (c ∷ s) h = ground (
  arith,
  rune_len_bounds (written_rune c),
  byte_len-sanitize_from limit (len + rune_len (written_rune c)) s,
)

abbrev pub IsPrintable : ℕ → Type 0
IsPrintable c = is_control c ≡ false

written_rune-IsPrintable : (c : ℕ) → IsPrintable (written_rune c)
unfolding written_rune
written_rune-IsPrintable c = ground arith

sanitize_from-IsPrintable : (limit len : ℕ) (s : Text) → All IsPrintable (sanitize_from limit len s)
unfolding sanitize_from
sanitize_from-IsPrintable limit len [] = tt
sanitize_from-IsPrintable limit len (c ∷ s) = ground (
  arith,
  written_rune-IsPrintable c,
  sanitize_from-IsPrintable limit (len + rune_len (written_rune c)) s,
)

-- What `sanitize` promises of the text that it returns.
pub record IsClean (limit : ℕ) (s : Text) : Type 0 where
  pub printable : All IsPrintable s
  pub starts_plain : StartsPlain s
  pub ends_plain : EndsPlain s
  pub bounded : byte_len s ≤ limit + 3

-- The empty text is clean.
nil-IsClean : (limit : ℕ) → IsClean limit []
unfolding byte_len
nil-IsClean limit = record {
  printable = tt;
  starts_plain = tt;
  ends_plain = tt;
  bounded = omega arith;
}

trimmed-IsClean :
    (limit : ℕ) (s : Text) → 0 < limit → IsClean limit (trim_space (sanitize_from limit 0 s))
trimmed-IsClean limit s h = record {
  printable = All-trim_space IsPrintable _ (sanitize_from-IsPrintable limit 0 s);
  starts_plain = (trim_space-plain (sanitize_from limit 0 s)).0;
  ends_plain = (trim_space-plain (sanitize_from limit 0 s)).1;
  bounded =
      omega
        (arith, byte_len-trim_space (sanitize_from limit 0 s), byte_len-sanitize_from limit 0 s h);
}

-- A sanitized text has no control character, no space at either end, and at most three bytes more
-- than the limit.
pub sanitize-IsClean : (value : Text) (limit : ℕ) → IsClean limit (sanitize value limit)
unfolding sanitize
sanitize-IsClean value limit = elim (Bool-cases (is_empty (trim_space value) || leb limit 0)) [
  | inl e ↦ rw e (nil-IsClean limit)
  | inr e ↦ rw e (trimmed-IsClean limit (trim_space value) (ground arith))
]

fallback-IsClean :
    (limit : ℕ) (s t : Text)
    → IsClean limit s
    → IsClean limit t × (t ≢ [])
    → IsClean limit (if is_empty s then t else s) × ((if is_empty s then t else s) ≢ [])
fallback-IsClean limit [] t h k = k
fallback-IsClean limit (c ∷ s) t h k = (h, λ e. cc)

-- A sanitized text with a clean fallback is clean and not empty.
sanitize_default-IsClean :
    (value fallback : Text) (limit : ℕ)
    → IsClean limit fallback × (fallback ≢ [])
    → IsClean limit (sanitize_default value fallback limit)
      × (sanitize_default value fallback limit ≢ [])
unfolding sanitize_default
sanitize_default-IsClean value fallback limit h =
    fallback-IsClean limit (sanitize value limit) fallback (sanitize-IsClean value limit) h

-- The two outcomes that a stored event can have.
abbrev pub IsOutcome : Text → Type 0
IsOutcome o = (o ≡ codes "success") ⊎ (o ≡ codes "failure")

normal_outcome-IsOutcome : (given : Text) (status : ℕ) → IsOutcome (normal_outcome given status)
unfolding normal_outcome
normal_outcome-IsOutcome given status = ground (
  arith,
  text_eq_iff (to_lower (trim_space given)) (codes "success"),
  text_eq_iff (to_lower (trim_space given)) (codes "failure"),
)

-- What `Append` stores, whatever it is given.
pub record IsStorable (e : EventPayload) : Type 0 where
  pub request_id : IsClean 64 e.request_id
  pub event_type : IsClean 32 e.event_type × (e.event_type ≢ [])
  pub action : IsClean 160 e.action × (e.action ≢ [])
  pub method : IsClean 12 e.method
  pub route : IsClean 255 e.route
  pub path : IsClean 1024 e.path
  pub status : e.status ≤ 999
  pub outcome : IsOutcome e.outcome
  pub username : IsClean 128 e.username
  pub auth_mode : IsClean 32 e.auth_mode
  pub remote_ip : IsClean 64 e.remote_ip
  pub user_agent : IsClean 512 e.user_agent
  pub message : IsClean 255 e.message

http-IsClean : IsClean 32 (codes "http") × (codes "http" ≢ [])
unfolding is_control is_space byte_len rune_len
http-IsClean = (
  record {
    printable = (refl, (refl, (refl, (refl, tt))));
    starts_plain = refl;
    ends_plain = refl;
    bounded = omega arith;
  },
  λ e. cc,
)

unknown-IsClean : IsClean 160 (codes "unknown") × (codes "unknown" ≢ [])
unfolding is_control is_space byte_len rune_len
unknown-IsClean = (
  record {
    printable = (refl, (refl, (refl, (refl, (refl, (refl, (refl, tt)))))));
    starts_plain = refl;
    ends_plain = refl;
    bounded = omega arith;
  },
  λ e. cc,
)

normal_status-le : (z : ℤ) → normal_status z ≤ 999
unfolding normal_status
normal_status-le z = ground arith

-- The text fields of a normalised event, the mode of authentication among them, are clean at their
-- limits, the type and the action are not
-- empty, the status is at most 999 and the outcome is one of two words.
pub normalize-IsStorable :
    (c : Signer) (now : ℕ) (input : EventInput) → IsStorable (normalize c now input)
unfolding normalize
normalize-IsStorable c now input = record {
  request_id = sanitize-IsClean input.request_id 64;
  event_type = sanitize_default-IsClean input.event_type (codes "http") 32 http-IsClean;
  action = sanitize_default-IsClean input.action (codes "unknown") 160 unknown-IsClean;
  method = sanitize-IsClean (upper_text c.upper_rune input.method) 12;
  route = sanitize-IsClean input.route 255;
  path = sanitize-IsClean input.path 1024;
  status = normal_status-le input.status;
  outcome = normal_outcome-IsOutcome input.outcome (normal_status input.status);
  username = sanitize-IsClean input.username 128;
  auth_mode = sanitize-IsClean input.auth_mode 32;
  remote_ip = sanitize-IsClean input.remote_ip 64;
  user_agent = sanitize-IsClean input.user_agent 512;
  message = sanitize-IsClean input.message 255;
}
