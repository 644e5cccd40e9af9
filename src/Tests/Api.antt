-- ===== src/Tests/Api.antt =====
-- The owner of a node, who logs in, and a stranger.
use fnshare.Prelude.{ℕ, refl, true, false, List, [], ◌∷◌, none, some, ◌≡◌, arith, ite}
use fnshare.Prelude.Bytes.{Bytes, codes, bytes_dec}
use fnshare.Auth.{key_password_hash}
use fnshare.Config.{default_config}
use fnshare.Api.{Deps, Server}
use fnshare.Api.Login.{logged_in, serve-login}
use fnshare.Api.Routes.{
  Call, Request, Gated, get_config, login, logout, init, gated, serve, handle, run, with_token,
}
use fnshare.Api.Strangers.{AllRefused, run_strangers}
use fnshare.Tests.Instances.{never, only, only-ReadsBack, member_dec, zeros}
use fnshare.Prelude.{◌↔◌, ◌++◌, ◌*◌, ok}
use fnshare.Prelude.Int.{pos}
use fnshare.Prelude.Clock.{at, to_seconds}
use fnshare.Store.Memory.{memory-BadgerLaws}
use fnshare.Group
use fnshare.Group.{Member, admit_message}
use fnshare.Api.Founding.{kept, Signs, founded, handle_create_group_founder}
use fnshare.Api.Handlers.{NewKeys, handle_create_group}
use fnshare.Tests.Put.{service, start}

-- The hash of a password is the password.
abbrev deps : Deps
deps = record {
  files = service;
  has_files = true;
  bcrypt = record {
    generate = λ salt password. some password;
    compare = λ hash password. ite (bytes_dec hash password) true false;
  };
  cli_token = codes "from the file";
  yaml = never;
  formats = record {
    cbor = never;
    base64_encode = λ s. s;
    base64_decode = λ s. some s;
    trim_space = λ s. s;
    parse_url = λ s. none;
  };
  raw_pub_key = none;
}

abbrev secret : Bytes
secret = codes "open sesame"

abbrev server : Server deps
server = record {
  node = record start { db = record start.db { entries = (key_password_hash, secret) ∷ [] } };
  sessions = (codes "of the owner", 99) ∷ [];
  cfg = default_config none (codes "/data");
  config_file = [];
}

-- A request with a cookie, at a time.
abbrev call : ℕ → Bytes → Request → Call
call now cookie request = record { now = now; cookie = some cookie; header = []; request = request }

abbrev attempts : List Call
attempts =
    call 5 (codes "guess") (gated get_config)
    ∷ call 6 [] (login (some (codes "please")) (some (codes "t")))
    ∷ call 7 (codes "guess") (init [] (some (codes "mine now")) (some (codes "t")))
    ∷ call 8 (codes "guess") logout
    ∷ []

run_strangers_example :
    ((run deps attempts server).0 ≡ server)
    × AllRefused deps secret attempts (run deps attempts server).1
unfolding fnshare.Store.get fnshare.Store.Memory.read mathlib.Core.List.lookup bytes_dec
    fnshare.Api.Routes.extract_token
run_strangers_example = run_strangers deps secret attempts server refl (
  ((λ e. absurd (ground arith)), refl, tt),
  (
    ((λ e. absurd (ground arith)), refl, refl),
    (((λ e. absurd (ground arith)), refl, tt), (((λ e. absurd (ground arith)), refl, tt), tt)),
  ),
)

serve-login_example :
    (serve deps (call 5 [] (login (some secret) (some (codes "new")))) server
      ≡ (logged_in deps 5 (codes "new") server, with_token deps (codes "new")))
    × (serve deps (call 9 (codes "new") (gated get_config)) (logged_in deps 5 (codes "new") server)
        ≡ handle deps get_config (logged_in deps 5 (codes "new") server))
unfolding fnshare.Store.get fnshare.Store.Memory.read mathlib.Core.List.lookup bytes_dec
    fnshare.Api.Routes.extract_token
serve-login_example =
    serve-login deps (call 5 [] (login (some secret) (some (codes "new"))))
      (call 9 (codes "new") (gated get_config)) server get_config secret secret (codes "new") refl
      refl refl refl refl (λ e. absurd (ground arith)) (omega arith)

-- The group is created two seconds and a half after the start of 1970.
abbrev keys : NewKeys
keys = record {
  id = codes "a group";
  public = codes "public";
  private = zeros ++ zeros;
  shared = zeros;
}

abbrev signed : Bytes
signed = admit_message (codes "a group") (codes "al") (at 2500000000)

-- This node as it is written to the store.
abbrev founder_now : Member
founder_now = record {
  peer_id = codes "al";
  nickname = codes "fnshare-node";
  node_pub = codes "raw";
  enc_pub = zeros;
  contributed = pos (100 * 1024 * 1024 * 1024);
  joined_at = at 2500000000;
  admitted_by_sig = zeros ++ zeros;
  last_addrs = [];
  admission_invite = [];
}

abbrev founding : Deps
founding = record deps {
  raw_pub_key = some (codes "raw");
  files = record service {
    deps = record service.deps {
      groups = record { marshal = λ g. some (codes "group"); unmarshal = λ raw. none };
      members = only member_dec kept founder_now (codes "member");
      ed25519 = record {
        sign = λ key text. zeros ++ zeros;
        verify = λ key text sig. ite (bytes_dec text signed) true false;
      };
    };
  };
}

abbrev fresh : Server founding
fresh = record {
  node = record {
    db = record { entries = []; broken = false };
    files = [];
    dirty = [];
    has_blocks = true;
    has_ledger = false;
  };
  sessions = [];
  cfg = default_config none (codes "/data");
  config_file = [];
}

signs : Signs founding 2500000000 keys
unfolding bytes_dec
signs = record { size = refl; right = ground arith; only = λ e. ground arith }

handle_create_group_founder_example :
    (m : Member) × (Group.get_member founding.files.deps
        (handle_create_group founding
          (at 2499999999)
          (at 2500000000)
          (some keys)
          (some (codes "g"))
          fresh).0.node.db
        (codes "a group")
        (codes "al")
      ≡ ok m)
    × ((Group.verify_membership founding.files.deps
            (founded founding (at 2499999999) keys (codes "g"))
            m
          ≡ true)
        ↔ (to_seconds (at 2500000000) ≡ at 2500000000))
unfolding handle_create_group Group.save fnshare.Store.put fnshare.Store.Memory.write
    fnshare.Api.Handlers.add_self Group.admit_member Group.create Group.put_member
    fnshare.Tests.Instances.only_marshal member_dec default_config fnshare.Config.hostname_or
    fnshare.Prelude.Paths.path_dec
handle_create_group_founder_example =
    handle_create_group_founder founding memory-BadgerLaws (at 2499999999) 2500000000 keys
      (codes "g") fresh (only-ReadsBack member_dec kept founder_now (codes "member")) signs refl
