-- ===== src/Packet/RoundTrip/LowProperties.antt =====
-- The properties with identifiers 0x01 to 0x13: each piece that is written is read back.
use natsmqtt.Prelude.{suc, ◌≡◌, arith, le→leb}
use natsmqtt.Packet.Types.{PacketType}
use natsmqtt.Packet.Result.{ok}
use natsmqtt.Packet.Reader.{byte}
use natsmqtt.Packet.Utf8.{validate_utf8}
use natsmqtt.Packet.Writer.{put_uint16, put_uint32, put_binary, put_text}
use natsmqtt.Packet.Properties.{prop_code, Properties, no_properties}
use natsmqtt.Packet.Properties.{prop_payload_format, prop_message_expiry, prop_content_type}
use natsmqtt.Packet.Properties.{prop_response_topic, prop_correlation_data, prop_subscription_id}
use natsmqtt.Packet.Properties.{prop_session_expiry, prop_assigned_client_id}
use natsmqtt.Packet.Properties.{prop_server_keep_alive}
use natsmqtt.Packet.Properties.Read.{read_property}
use natsmqtt.Packet.Properties.Write.{put_byte, put_scalar, put_string, put_subscription_ids}
use natsmqtt.Packet.RoundTrip.Primitives.{uint16-put_uint16, uint32-put_uint32, text-put_text}
use natsmqtt.Packet.RoundTrip.Primitives.{binary-put_binary, var_byte_int-put_var_byte_int}
use natsmqtt.Packet.RoundTrip.Loop.{Step, Reads-scalar, Reads-string, nonzero}
use natsmqtt.Packet.RoundTrip.Repeats.{Reads-subscription_ids}
use natsmqtt.Packet.RoundTrip.Valid.{IsFlag, IsUint16, IsUint32}
use natsmqtt.Packet.RoundTrip.Valid.{
  IsValid, stage_1, stage_2, stage_3, stage_4, stage_5, stage_6, stage_7, stage_8, stage_9,
}

module _ (ctx : PacketType) (p : Properties) (valid : IsValid ctx p) where
  pub Step-payload_format :
      Step ctx 0 no_properties
        (put_scalar put_byte prop_payload_format ctx p.payload_format)
        (suc (prop_code prop_payload_format))
        (stage_1 ctx p)
  unfolding read_property prop_code byte
  Step-payload_format = record {
    run = λ bytes.
        Reads-scalar ctx 0 prop_payload_format put_byte IsFlag
          (λ v. record no_properties { payload_format = v }) p.payload_format bytes (omega arith)
          (λ x s h. rw (le→leb x 1 h)) valid.payload_format;
  }

  pub Step-message_expiry :
      Step ctx
        (suc (prop_code prop_payload_format))
        (stage_1 ctx p)
        (put_scalar put_uint32 prop_message_expiry ctx p.message_expiry_interval)
        (suc (prop_code prop_message_expiry))
        (stage_2 ctx p)
  unfolding read_property prop_code
  Step-message_expiry = record {
    run = λ bytes.
        Reads-scalar ctx (suc (prop_code prop_payload_format)) prop_message_expiry put_uint32
          IsUint32 (λ v. record (stage_1 ctx p) { message_expiry_interval = v })
          p.message_expiry_interval bytes (omega arith) (λ x s h. rw (uint32-put_uint32 x s h))
          valid.message_expiry_interval;
  }

  pub Step-content_type :
      Step ctx
        (suc (prop_code prop_message_expiry))
        (stage_2 ctx p)
        (put_string put_text prop_content_type ctx p.content_type)
        (suc (prop_code prop_content_type))
        (stage_3 ctx p)
  unfolding read_property prop_code
  Step-content_type = record {
    run = λ bytes.
        Reads-string ctx (suc (prop_code prop_message_expiry)) prop_content_type put_text
          (λ s. validate_utf8 s ≡ ok tt) (λ v. record (stage_2 ctx p) { content_type = v })
          p.content_type bytes (omega arith) (λ x s fits h. rw (text-put_text x s fits h))
          valid.content_type;
  }

  pub Step-response_topic :
      Step ctx
        (suc (prop_code prop_content_type))
        (stage_3 ctx p)
        (put_string put_text prop_response_topic ctx p.response_topic)
        (suc (prop_code prop_response_topic))
        (stage_4 ctx p)
  unfolding read_property prop_code
  Step-response_topic = record {
    run = λ bytes.
        Reads-string ctx (suc (prop_code prop_content_type)) prop_response_topic put_text
          (λ s. validate_utf8 s ≡ ok tt) (λ v. record (stage_3 ctx p) { response_topic = v })
          p.response_topic bytes (omega arith) (λ x s fits h. rw (text-put_text x s fits h))
          valid.response_topic;
  }

  pub Step-correlation_data :
      Step ctx
        (suc (prop_code prop_response_topic))
        (stage_4 ctx p)
        (put_string put_binary prop_correlation_data ctx p.correlation_data)
        (suc (prop_code prop_correlation_data))
        (stage_5 ctx p)
  unfolding read_property prop_code
  Step-correlation_data = record {
    run = λ bytes.
        Reads-string ctx (suc (prop_code prop_response_topic)) prop_correlation_data put_binary
          (λ s. Unit) (λ v. record (stage_4 ctx p) { correlation_data = v }) p.correlation_data
          bytes (omega arith) (λ x s fits h. rw (binary-put_binary x s fits)) (λ _. tt);
  }

  pub Step-subscription_id :
      Step ctx
        (suc (prop_code prop_correlation_data))
        (stage_5 ctx p)
        (put_subscription_ids ctx p.subscription_identifiers)
        (suc (prop_code prop_subscription_id))
        (stage_6 ctx p)
  unfolding read_property prop_code
  Step-subscription_id = record {
    run = λ bytes.
        Reads-subscription_ids ctx (suc (prop_code prop_correlation_data))
          (λ v. record (stage_5 ctx p) { subscription_identifiers = v }) p.subscription_identifiers
          bytes (λ ys x s h. rw (var_byte_int-put_var_byte_int x s h.1, nonzero x h.0))
          (omega arith) valid.subscription_identifiers;
  }

  pub Step-session_expiry :
      Step ctx
        (suc (prop_code prop_subscription_id))
        (stage_6 ctx p)
        (put_scalar put_uint32 prop_session_expiry ctx p.session_expiry_interval)
        (suc (prop_code prop_session_expiry))
        (stage_7 ctx p)
  unfolding read_property prop_code
  Step-session_expiry = record {
    run = λ bytes.
        Reads-scalar ctx (suc (prop_code prop_subscription_id)) prop_session_expiry put_uint32
          IsUint32 (λ v. record (stage_6 ctx p) { session_expiry_interval = v })
          p.session_expiry_interval bytes (omega arith) (λ x s h. rw (uint32-put_uint32 x s h))
          valid.session_expiry_interval;
  }

  pub Step-assigned_client_id :
      Step ctx
        (suc (prop_code prop_session_expiry))
        (stage_7 ctx p)
        (put_string put_text prop_assigned_client_id ctx p.assigned_client_id)
        (suc (prop_code prop_assigned_client_id))
        (stage_8 ctx p)
  unfolding read_property prop_code
  Step-assigned_client_id = record {
    run = λ bytes.
        Reads-string ctx (suc (prop_code prop_session_expiry)) prop_assigned_client_id put_text
          (λ s. validate_utf8 s ≡ ok tt) (λ v. record (stage_7 ctx p) { assigned_client_id = v })
          p.assigned_client_id bytes (omega arith) (λ x s fits h. rw (text-put_text x s fits h))
          valid.assigned_client_id;
  }

  pub Step-server_keep_alive :
      Step ctx
        (suc (prop_code prop_assigned_client_id))
        (stage_8 ctx p)
        (put_scalar put_uint16 prop_server_keep_alive ctx p.server_keep_alive)
        (suc (prop_code prop_server_keep_alive))
        (stage_9 ctx p)
  unfolding read_property prop_code
  Step-server_keep_alive = record {
    run = λ bytes.
        Reads-scalar ctx (suc (prop_code prop_assigned_client_id)) prop_server_keep_alive put_uint16
          IsUint16 (λ v. record (stage_8 ctx p) { server_keep_alive = v }) p.server_keep_alive bytes
          (omega arith) (λ x s h. rw (uint16-put_uint16 x s h)) valid.server_keep_alive;
  }
