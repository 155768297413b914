-- ===== src/Packet/RoundTrip/HighProperties.antt =====
-- The properties with identifiers 0x22 to 0x2A: each piece that is written is read back.
use natsmqtt.Prelude.{suc, arith, le→leb}
use natsmqtt.Packet.Types.{PacketType}
use natsmqtt.Packet.Reader.{byte}
use natsmqtt.Packet.Writer.{put_uint16, put_uint32}
use natsmqtt.Packet.Properties.{prop_code, Properties}
use natsmqtt.Packet.Properties.{prop_receive_maximum}
use natsmqtt.Packet.Properties.{prop_topic_alias_maximum, prop_topic_alias, prop_maximum_qos}
use natsmqtt.Packet.Properties.{prop_retain_available, prop_user, prop_maximum_packet_size}
use natsmqtt.Packet.Properties.{prop_wildcard_sub_avail, prop_sub_id_avail, prop_shared_sub_avail}
use natsmqtt.Packet.Properties.Read.{read_property}
use natsmqtt.Packet.Properties.Write.{put_byte, put_scalar, put_user}
use natsmqtt.Packet.RoundTrip.Primitives.{uint16-put_uint16, uint32-put_uint32}
use natsmqtt.Packet.RoundTrip.Primitives.{string_pair-put_string_pair}
use natsmqtt.Packet.RoundTrip.Loop.{Step, Reads-scalar, nonzero}
use natsmqtt.Packet.RoundTrip.Repeats.{Reads-user}
use natsmqtt.Packet.RoundTrip.Valid.{IsFlag, IsUint16, IsPositiveUint16, IsPositiveUint32}
use natsmqtt.Packet.RoundTrip.Valid.{
  IsValid, stage_18, stage_19, stage_20, stage_21, stage_22, stage_23, stage_24, stage_25, stage_26,
  stage_27,
}

module _ (ctx : PacketType) (p : Properties) (valid : IsValid ctx p) where
  pub Step-topic_alias_maximum :
      Step ctx
        (suc (prop_code prop_receive_maximum))
        (stage_18 ctx p)
        (put_scalar put_uint16 prop_topic_alias_maximum ctx p.topic_alias_maximum)
        (suc (prop_code prop_topic_alias_maximum))
        (stage_19 ctx p)
  unfolding read_property prop_code
  Step-topic_alias_maximum = record {
    run = λ bytes.
        Reads-scalar ctx (suc (prop_code prop_receive_maximum)) prop_topic_alias_maximum put_uint16
          IsUint16 (λ v. record (stage_18 ctx p) { topic_alias_maximum = v }) p.topic_alias_maximum
          bytes (omega arith) (λ x s h. rw (uint16-put_uint16 x s h)) valid.topic_alias_maximum;
  }

  pub Step-topic_alias :
      Step ctx
        (suc (prop_code prop_topic_alias_maximum))
        (stage_19 ctx p)
        (put_scalar put_uint16 prop_topic_alias ctx p.topic_alias)
        (suc (prop_code prop_topic_alias))
        (stage_20 ctx p)
  unfolding read_property prop_code
  Step-topic_alias = record {
    run = λ bytes.
        Reads-scalar ctx (suc (prop_code prop_topic_alias_maximum)) prop_topic_alias put_uint16
          IsPositiveUint16 (λ v. record (stage_19 ctx p) { topic_alias = v }) p.topic_alias bytes
          (omega arith) (λ x s h. rw (uint16-put_uint16 x s h.1, nonzero x h.0)) valid.topic_alias;
  }

  pub Step-maximum_qos :
      Step ctx
        (suc (prop_code prop_topic_alias))
        (stage_20 ctx p)
        (put_scalar put_byte prop_maximum_qos ctx p.maximum_qos)
        (suc (prop_code prop_maximum_qos))
        (stage_21 ctx p)
  unfolding read_property prop_code byte
  Step-maximum_qos = record {
    run = λ bytes.
        Reads-scalar ctx (suc (prop_code prop_topic_alias)) prop_maximum_qos put_byte IsFlag
          (λ v. record (stage_20 ctx p) { maximum_qos = v }) p.maximum_qos bytes (omega arith)
          (λ x s h. rw (le→leb x 1 h)) valid.maximum_qos;
  }

  pub Step-retain_available :
      Step ctx
        (suc (prop_code prop_maximum_qos))
        (stage_21 ctx p)
        (put_scalar put_byte prop_retain_available ctx p.retain_available)
        (suc (prop_code prop_retain_available))
        (stage_22 ctx p)
  unfolding read_property prop_code byte
  Step-retain_available = record {
    run = λ bytes.
        Reads-scalar ctx (suc (prop_code prop_maximum_qos)) prop_retain_available put_byte IsFlag
          (λ v. record (stage_21 ctx p) { retain_available = v }) p.retain_available bytes
          (omega arith) (λ x s h. rw (le→leb x 1 h)) valid.retain_available;
  }

  pub Step-user :
      Step ctx
        (suc (prop_code prop_retain_available))
        (stage_22 ctx p)
        (put_user ctx p.user)
        (suc (prop_code prop_user))
        (stage_23 ctx p)
  unfolding read_property prop_code
  Step-user = record {
    run = λ bytes.
        Reads-user ctx (suc (prop_code prop_retain_available))
          (λ v. record (stage_22 ctx p) { user = v }) p.user bytes
          (λ ys x s h. rw (string_pair-put_string_pair x.key x.value s h.1 h.2 h.0.0 h.0.1))
          (omega arith) valid.user;
  }

  pub Step-maximum_packet_size :
      Step ctx
        (suc (prop_code prop_user))
        (stage_23 ctx p)
        (put_scalar put_uint32 prop_maximum_packet_size ctx p.maximum_packet_size)
        (suc (prop_code prop_maximum_packet_size))
        (stage_24 ctx p)
  unfolding read_property prop_code
  Step-maximum_packet_size = record {
    run = λ bytes.
        Reads-scalar ctx (suc (prop_code prop_user)) prop_maximum_packet_size put_uint32
          IsPositiveUint32 (λ v. record (stage_23 ctx p) { maximum_packet_size = v })
          p.maximum_packet_size bytes (omega arith)
          (λ x s h. rw (uint32-put_uint32 x s h.1, nonzero x h.0)) valid.maximum_packet_size;
  }

  pub Step-wildcard_sub_avail :
      Step ctx
        (suc (prop_code prop_maximum_packet_size))
        (stage_24 ctx p)
        (put_scalar put_byte prop_wildcard_sub_avail ctx p.wildcard_sub_available)
        (suc (prop_code prop_wildcard_sub_avail))
        (stage_25 ctx p)
  unfolding read_property prop_code byte
  Step-wildcard_sub_avail = record {
    run = λ bytes.
        Reads-scalar ctx (suc (prop_code prop_maximum_packet_size)) prop_wildcard_sub_avail put_byte
          IsFlag (λ v. record (stage_24 ctx p) { wildcard_sub_available = v })
          p.wildcard_sub_available bytes (omega arith) (λ x s h. rw (le→leb x 1 h))
          valid.wildcard_sub_available;
  }

  pub Step-sub_id_avail :
      Step ctx
        (suc (prop_code prop_wildcard_sub_avail))
        (stage_25 ctx p)
        (put_scalar put_byte prop_sub_id_avail ctx p.sub_id_available)
        (suc (prop_code prop_sub_id_avail))
        (stage_26 ctx p)
  unfolding read_property prop_code byte
  Step-sub_id_avail = record {
    run = λ bytes.
        Reads-scalar ctx (suc (prop_code prop_wildcard_sub_avail)) prop_sub_id_avail put_byte IsFlag
          (λ v. record (stage_25 ctx p) { sub_id_available = v }) p.sub_id_available bytes
          (omega arith) (λ x s h. rw (le→leb x 1 h)) valid.sub_id_available;
  }

  pub Step-shared_sub_avail :
      Step ctx
        (suc (prop_code prop_sub_id_avail))
        (stage_26 ctx p)
        (put_scalar put_byte prop_shared_sub_avail ctx p.shared_sub_available)
        (suc (prop_code prop_shared_sub_avail))
        (stage_27 ctx p)
  unfolding read_property prop_code byte
  Step-shared_sub_avail = record {
    run = λ bytes.
        Reads-scalar ctx (suc (prop_code prop_sub_id_avail)) prop_shared_sub_avail put_byte IsFlag
          (λ v. record (stage_26 ctx p) { shared_sub_available = v }) p.shared_sub_available bytes
          (omega arith) (λ x s h. rw (le→leb x 1 h)) valid.shared_sub_available;
  }
