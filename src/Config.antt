-- ===== src/Config.antt =====
-- yojimbo_config.h: `ChannelType`.
use libyojimbo.Prelude.{Bool, true, false}

pub data ChannelType : Type 0 where
  channel_type_reliable_ordered : ChannelType
  channel_type_unreliable_unordered : ChannelType

abbrev pub is_reliable_ordered : ChannelType → Bool
is_reliable_ordered channel_type_reliable_ordered = true
is_reliable_ordered channel_type_unreliable_unordered = false
