-- ===== src/Invite.antt =====
-- internal/invite/invite.go: signed invitations to a group.
-- base64, URL parsing and CBOR are parameters. The payload type is that of `fnshare.Group`.
use fnshare.Prelude.{
  ℕ, true, false, List, [], ◌++◌, Option, Result, ok, guard, or_fail, ◌>>=◌, ◌>>◌, not, length,
  ◌==◌, ite,
}
use fnshare.Prelude.Int.{ℤ, ltb_ℤ}
use fnshare.Prelude.Bytes.{Bytes, codes, bytes_dec}
use fnshare.Codec.{Codec}
use fnshare.Group.{Group, Payload, Deps, private_key_size}

pub record Invite : Type 0 where
  pub group_id : Bytes
  pub group_name : Bytes
  pub group_admin_pub : Bytes
  pub group_shared_key : Bytes
  pub bootstrap_peers : List Bytes
  pub nonce : Bytes
  pub issued_at : ℤ
  pub expires_at : ℤ
  pub quota_cap : ℤ
  pub signature : Bytes

pub data InviteError : Type 0 where
  marshal_failed only_admin no_randomness wrong_key_size expired bad_signature : InviteError
  bad_url bad_base64 bad_cbor no_payload : InviteError
  wrong_scheme : Bytes → InviteError

-- `url.Parse`, as far as `Decode` looks: the scheme and the fragment.
pub record Url : Type 0 where
  pub scheme : Bytes
  pub fragment : Bytes

pub record Formats : Type 0 where
  pub cbor : Codec Invite
  pub base64_encode : Bytes → Bytes
  pub base64_decode : Bytes → Option Bytes
  pub trim_space : Bytes → Bytes
  pub parse_url : Bytes → Option Url

abbrev pub scheme : Bytes
scheme = codes "fnshare"

abbrev pub public_key_size : ℕ
public_key_size = 32

unfoldable pub payload_of : Invite → Payload
payload_of i = record {
  group_id = i.group_id;
  group_name = i.group_name;
  group_admin_pub = i.group_admin_pub;
  group_shared_key = i.group_shared_key;
  bootstrap_peers = i.bootstrap_peers;
  nonce = i.nonce;
  issued_at = i.issued_at;
  expires_at = i.expires_at;
  quota_cap = i.quota_cap;
}

module _ (d : Deps) where
  open d use {ed25519, invites}

  -- `signedBytes`
  unfoldable pub signed_bytes : Invite → Result InviteError Bytes
  signed_bytes i = or_fail (invites.marshal_payload (payload_of i)) marshal_failed

  -- `Verify`, at `now` in Unix seconds.
  unfoldable pub verify : ℤ → Invite → Result InviteError (Unit {0})
  verify now i = do
    guard (length i.group_admin_pub == public_key_size) wrong_key_size
    guard (not (ltb_ℤ i.expires_at now)) expired
    body ← signed_bytes i
    guard (ed25519.verify i.group_admin_pub body i.signature) bad_signature

  -- The invite of `Create` before it is signed.
  unfoldable pub unsigned : Group → List Bytes → Bytes → ℤ → ℤ → ℤ → Invite
  unsigned g bootstrap nonce issued expires quota = record {
    group_id = g.id;
    group_name = g.name;
    group_admin_pub = g.admin_pub;
    group_shared_key = g.shared_key;
    bootstrap_peers = bootstrap;
    nonce = nonce;
    issued_at = issued;
    expires_at = expires;
    quota_cap = quota;
    signature = [];
  }

  -- `Create`: `random` are the 16 bytes of the nonce, `issued` is now, and `expires` now plus the
  -- time to live, in Unix seconds.
  unfoldable pub create : Group → List Bytes → Option Bytes → ℤ → ℤ → ℤ → Result InviteError Invite
  create g bootstrap random issued expires quota = do
    guard (length g.admin_priv == private_key_size) only_admin
    nonce ← or_fail random no_randomness
    let inv = unsigned g bootstrap nonce issued expires quota
    body ← signed_bytes inv
    ok (record inv { signature = ed25519.sign g.admin_priv body })

module _ (d : Deps) (f : Formats) where
  -- `Encode`
  unfoldable pub encode : Invite → Result InviteError Bytes
  encode i = do
    raw ← or_fail (f.cbor.marshal i) marshal_failed
    ok (scheme ++ (codes "://join#" ++ f.base64_encode raw))

  -- `Decode`
  unfoldable pub decode : ℤ → Bytes → Result InviteError Invite
  decode now s = do
    u ← or_fail (f.parse_url (f.trim_space s)) bad_url
    guard (ite (bytes_dec u.scheme scheme) true false) (wrong_scheme u.scheme)
    guard (not (length u.fragment == 0)) no_payload
    raw ← or_fail (f.base64_decode u.fragment) bad_base64
    inv ← or_fail (f.cbor.unmarshal raw) bad_cbor
    verify d now inv >> ok inv
