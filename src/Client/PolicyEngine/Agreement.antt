-- ===== src/Client/PolicyEngine/Agreement.antt =====
-- The policies of the client (packages/client-core/src/core/policy-engine.ts) and of the server
-- (apps/server/src/utils/policy.ts).
use sharepaste.Prelude.{◌≡◌, refl}
use sharepaste.Types.{ClipboardKind, text, image, file, Policy}
use sharepaste.Policy.{is_item_allowed_by_policy}
use sharepaste.Client.Types.{ClipboardPayload, SharePolicy}
use sharepaste.Client.PolicyEngine.{is_allowed_by_policy}

-- What the client has of a policy of the server.
abbrev pub shared : Policy → SharePolicy
shared policy = record {
  allow_text = policy.allow_text;
  allow_image = policy.allow_image;
  allow_file = policy.allow_file;
  max_file_size_bytes = policy.max_file_size_bytes;
  version = policy.version;
}

agree_on :
    (policy : Policy) (payload : ClipboardPayload) (kind : ClipboardKind)
    → is_allowed_by_policy (shared policy) (record payload { kind = kind })
      ≡ is_item_allowed_by_policy policy kind payload.size_bytes
unfolding is_allowed_by_policy is_item_allowed_by_policy
agree_on policy payload text = refl
agree_on policy payload image = refl
agree_on policy payload file = refl

-- The client lets a payload through exactly if the server, with the same policy, accepts an item
-- of its kind and size.
pub is_allowed_by_policy-agrees :
    (policy : Policy) (payload : ClipboardPayload)
    → is_allowed_by_policy (shared policy) payload
      ≡ is_item_allowed_by_policy policy payload.kind payload.size_bytes
is_allowed_by_policy-agrees policy payload = agree_on policy payload payload.kind
