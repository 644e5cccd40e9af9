-- ===== src/Config.antt =====
-- internal/config/config.go: the settings of a node. YAML is a codec; the name of the host, and what
-- the disk does, are arguments.
use fnshare.Prelude.{
  ◌*◌, List, [], ◌∷◌, Option, none, some, Result, ok, err, if◌then◌else◌, length, ◌==◌,
}
use fnshare.Prelude.Int.{ℤ, pos}
use fnshare.Prelude.Bytes.{Bytes, codes}
use fnshare.Codec.{Codec}

pub record Config : Type 0 where
  pub nickname : Bytes
  pub data_dir : Bytes
  pub contributed_bytes : ℤ
  pub listen_addrs : List Bytes
  pub announce_addrs : List Bytes
  pub api_listen : Bytes
  pub heartbeat_seconds : ℤ
  pub mount_path : Bytes
  pub public_host : Bytes
  pub public_port : ℤ

-- `hostnameOr`; none is an error.
unfoldable pub hostname_or : Option Bytes → Bytes → Bytes
hostname_or none fallback = fallback
hostname_or (some h) fallback = if length h == 0 then fallback else h

-- `Default`
unfoldable pub default_config : Option Bytes → Bytes → Config
default_config host data_dir = record {
  nickname = hostname_or host (codes "fnshare-node");
  data_dir = data_dir;
  contributed_bytes = pos (100 * 1024 * 1024 * 1024);
  listen_addrs =
      codes "/ip4/0.0.0.0/tcp/4001"
      ∷ codes "/ip4/0.0.0.0/udp/4001/quic-v1"
      ∷ codes "/ip6/::/tcp/4001"
      ∷ codes "/ip6/::/udp/4001/quic-v1"
      ∷ [];
  announce_addrs = [];
  api_listen = codes "0.0.0.0:4101";
  heartbeat_seconds = pos 30;
  mount_path = [];
  public_host = [];
  public_port = pos 0;
}

pub data ConfigError : Type 0 where
  config_not_found read_failed bad_yaml mkdir_failed marshal_failed write_failed : ConfigError

-- What `os.ReadFile` finds.
pub data OnDisk : Type 0 where
  missing unreadable : OnDisk
  content : Bytes → OnDisk

-- What the disk does with a write.
pub data Writing : Type 0 where
  writes mkdir_fails write_fails : Writing

module _ (yaml : Codec Config) where
  -- `Load`
  unfoldable pub load : OnDisk → Bytes → Result ConfigError Config
  load missing data_dir = err config_not_found
  load unreadable data_dir = err read_failed
  load (content raw) data_dir = elim (yaml.unmarshal raw) [
    | none ↦ err bad_yaml
    | some c ↦ ok (if length c.data_dir == 0 then record c { data_dir = data_dir } else c)
  ]

  -- `Save`: the new content of the file.
  unfoldable pub save : Writing → Config → Result ConfigError Bytes
  save mkdir_fails c = err mkdir_failed
  save writes c = elim (yaml.marshal c) [ none ↦ err marshal_failed | some raw ↦ ok raw ]
  save write_fails c = elim (yaml.marshal c) [
    | none ↦ err marshal_failed
    | some raw ↦ err write_failed
  ]
