-- ===== src/Policy.antt =====
-- apps/server/src/utils/policy.ts
use sharepaste.Prelude.{ℕ, String, Bool, true, false, ℤ, pos, ltb_ℤ, if◌then◌else◌, ◌*◌}
use sharepaste.Types.{ClipboardKind, text, image, file, Policy}

-- The time at which it is made is an argument.
unfoldable pub default_policy : String → ℕ → Policy
default_policy updated_by now = record {
  allow_text = true;
  allow_image = true;
  allow_file = true;
  max_file_size_bytes = pos (3 * 1024 * 1024);
  version = 1;
  updated_by = updated_by;
  updated_at_unix = now;
}

unfoldable pub is_item_allowed_by_policy : Policy → ClipboardKind → ℤ → Bool
is_item_allowed_by_policy policy text size = policy.allow_text
is_item_allowed_by_policy policy image size = policy.allow_image
is_item_allowed_by_policy policy file size =
    if policy.allow_file then ltb_ℤ size policy.max_file_size_bytes else false
