-- ===== src/Client/PolicyEngine.antt =====
-- packages/client-core/src/core/policy-engine.ts
pub mod Agreement
use sharepaste.Prelude.{◌*◌, Bool, true, false, ℤ, pos, ltb_ℤ, if◌then◌else◌}
use sharepaste.Types.{ClipboardKind, text, image, file}
use sharepaste.Client.Types.{ClipboardPayload, SharePolicy}

unfoldable pub default_share_policy : SharePolicy
default_share_policy = record {
  allow_text = true;
  allow_image = true;
  allow_file = true;
  max_file_size_bytes = pos (3 * 1024 * 1024);
  version = 1;
}

allows_kind : SharePolicy → ClipboardKind → ℤ → Bool
allows_kind policy text size = policy.allow_text
allows_kind policy image size = policy.allow_image
allows_kind policy file size =
    if policy.allow_file then ltb_ℤ size policy.max_file_size_bytes else false

unfoldable pub is_allowed_by_policy : SharePolicy → ClipboardPayload → Bool
unfolding allows_kind
is_allowed_by_policy policy payload = allows_kind policy payload.kind payload.size_bytes
