-- ===== src/Directory/Types.antt =====
-- mcdir/dir.go and proto: the data of the directory.
use concat.Base.{Text, Option, List}
use concat.Base.Int.{ℤ}
use concat.Base.Dict.{Dict}
use concat.Mc.Message.{PeerInfo}

-- pb.PublisherInfo
pub record PublisherInfo : Type 0 where
  pub id : Text
  pub namespaces : List Text

pub record PeerRecord : Type 0 where
  pub peer : PeerInfo
  pub publisher : Option PublisherInfo

-- The field `peers` of Directory, by peer ID.
abbrev pub Peers : Type 0
Peers = Dict Text PeerRecord

-- pb.Manifest; its body is the bytes of the message.
pub record Manifest : Type 0 where
  pub entity : Text
  pub key_id : Text
  pub body : Text
  pub timestamp : ℤ
  pub signature : Option Text
