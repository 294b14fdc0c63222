-- ===== src/Audit/Normalize.antt =====
-- internal/services/audit/manager.go: `sanitize`, `sanitizeDefault` and `Manager.normalize`.
pub mod Bounds
use oneinstack_panel.Common.{
  ℕ, ◌+◌, Bool, ◌&&◌, ◌||◌, Option, none, some, [], ◌∷◌, leb, ltb, ◌==◌, if◌then◌else◌, map,
}
use oneinstack_panel.Common.Int.{ℤ, is_negative, pos_part}
use oneinstack_panel.Text.{
  Text, codes, text_eq, is_empty, is_control, rune_len, trim_space, to_lower, rune_to_upper,
}
use oneinstack_panel.Audit.{EventInput, EventPayload, Signer, chain_version}

-- A control character becomes a space.
written_rune : ℕ → ℕ
unfolding is_control
written_rune c = if is_control c then 0x20 else c

-- The loop of `sanitize`: `len` is `builder.Len()`.
sanitize_from : ℕ → ℕ → Text → Text
sanitize_from limit len [] = []
sanitize_from limit len (c ∷ s) =
    let len' = len + rune_len (written_rune c) in
    let rest = sanitize_from limit len' s in written_rune c ∷ (if leb limit len' then [] else rest)

pub sanitize : Text → ℕ → Text
unfolding sanitize_from written_rune rune_len trim_space
sanitize value limit =
    let trimmed = trim_space value in
    if is_empty trimmed || leb limit 0 then [] else trim_space (sanitize_from limit 0 trimmed)

pub sanitize_default : Text → Text → ℕ → Text
unfolding sanitize
sanitize_default value fallback limit =
    let cleaned = sanitize value limit in if is_empty cleaned then fallback else cleaned

-- `if status < 0 || status > 999 { status = 0 }`
pub normal_status : ℤ → ℕ
normal_status z = let n = pos_part z in if leb n 999 then n else 0

pub normal_outcome : Text → ℕ → Text
unfolding to_lower trim_space
normal_outcome given status =
    let outcome = to_lower (trim_space given) in
    if text_eq outcome (codes "success") || text_eq outcome (codes "failure")
    then outcome
    else if leb 200 status && ltb status 400
    then codes "success"
    else codes "failure"

pub or_now : Option ℕ → ℕ → ℕ
or_now none now = now
or_now (some at) now = at

-- `strings.ToUpper`, with the table of `unicode` beyond ASCII.
unfoldable pub upper_text : (ℕ → ℕ) → Text → Text
unfolding rune_to_upper
upper_text upper s = map (λ r. if ltb r 128 then rune_to_upper r else upper r) s

-- `Manager.normalize`, at the time `now`. The sequence and the previous hash are set by `Append`.
unfoldable pub normalize : Signer → ℕ → EventInput → EventPayload
unfolding sanitize_default normal_status normal_outcome or_now upper_text
normalize c now input = record {
  sequence = 0;
  request_id = sanitize input.request_id 64;
  event_type = sanitize_default input.event_type (codes "http") 32;
  action = sanitize_default input.action (codes "unknown") 160;
  method = sanitize (upper_text c.upper_rune input.method) 12;
  route = sanitize input.route 255;
  path = sanitize input.path 1024;
  status = normal_status input.status;
  outcome = normal_outcome input.outcome (normal_status input.status);
  sensitive = input.sensitive;
  user_id = input.user_id;
  username = sanitize input.username 128;
  auth_mode = sanitize input.auth_mode 32;
  remote_ip = sanitize input.remote_ip 64;
  user_agent = sanitize input.user_agent 512;
  content_length = pos_part input.content_length;
  duration_ms = pos_part input.duration_ms;
  message = sanitize input.message 255;
  created_at = or_now input.created_at now;
  previous_hash = [];
  version = chain_version;
}
