-- ===== src/Agent/Session/Sample.antt =====
-- A world for examples: one export "docs" on the sample disk, where "secret" is excluded by a matcher
-- that takes patterns literally.
use alloyfs.Base.{Bool, true, false, Option, none, some, [], ◌∷◌}
use alloyfs.Base.Text.{Text, chars, text_beq}
use alloyfs.Common.Exclude.{Globset, ExcludeSet}
use alloyfs.Common.Files.Sample.{sample_fs}
use alloyfs.Agent.Hub.{new}
use alloyfs.Agent.Export.{Export}
use alloyfs.Agent.Session.{World, Session, OpenFile}

abbrev pub literally : Globset
literally = record { builds = λ g. true; matches = λ g p. text_beq g.pattern p }

abbrev pub excludes : ExcludeSet
excludes = record {
  set = record { pattern = chars "secret"; case_insensitive = false } ∷ [];
  empty = false;
  artifacts = none;
}

abbrev pub docs : Bool → Export
docs ro = record {
  name = chars "docs";
  root = record { components = chars "srv" ∷ []; is_unicode = true };
  read_only = ro;
  versions = record { versions = (chars "a.txt", 3) ∷ []; vclock = 3 };
  events = new;
  locks = [];
  exclude = excludes;
  mount_defaults = record {
    exclude = [];
    pin = [];
    auto_cache_max = none;
    auto_cache_budget = none;
  };
}

abbrev pub opened : OpenFile sample_fs
opened = record { file = tt; path = chars "a.txt"; writable = true }

abbrev pub session_of : Option Text → Bool → Session sample_fs
session_of token authed = record {
  id = 1;
  attached = some (chars "docs");
  handles = (1, opened) ∷ [];
  next_fh = 2;
  push = true;
  last_seen = 0;
  required_token = token;
  authed = authed;
}

abbrev pub world_of : Bool → Session sample_fs → World sample_fs
world_of ro s = record {
  disk = 1 ∷ 2 ∷ 3 ∷ [];
  exports = (chars "docs", docs ro) ∷ [];
  session = s;
  now = 9;
  next_ticket = 0;
  woken = [];
}
