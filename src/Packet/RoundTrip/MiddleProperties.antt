-- ===== src/Packet/RoundTrip/MiddleProperties.antt =====
-- The properties with identifiers 0x15 to 0x21: each piece that is written is read back.
use natsmqtt.Prelude.{suc, ◌≡◌, arith, le→leb}
use natsmqtt.Packet.Types.{PacketType}
use natsmqtt.Packet.Result.{ok}
use natsmqtt.Packet.Reader.{byte}
use natsmqtt.Packet.Utf8.{validate_utf8}
use natsmqtt.Packet.Writer.{put_uint16, put_uint32, put_binary, put_text}
use natsmqtt.Packet.Properties.{prop_code, Properties}
use natsmqtt.Packet.Properties.{prop_server_keep_alive, prop_auth_method, prop_auth_data}
use natsmqtt.Packet.Properties.{prop_request_problem_info, prop_will_delay_interval}
use natsmqtt.Packet.Properties.{prop_request_response, prop_response_info, prop_server_reference}
use natsmqtt.Packet.Properties.{prop_reason_string, prop_receive_maximum}
use natsmqtt.Packet.Properties.Read.{read_property}
use natsmqtt.Packet.Properties.Write.{put_byte, put_scalar, put_string}
use natsmqtt.Packet.RoundTrip.Primitives.{uint16-put_uint16, uint32-put_uint32, text-put_text}
use natsmqtt.Packet.RoundTrip.Primitives.{binary-put_binary}
use natsmqtt.Packet.RoundTrip.Loop.{Step, Reads-scalar, Reads-string, nonzero}
use natsmqtt.Packet.RoundTrip.Valid.{IsFlag, IsPositiveUint16, IsUint32}
use natsmqtt.Packet.RoundTrip.Valid.{
  IsValid, stage_9, stage_10, stage_11, stage_12, stage_13, stage_14, stage_15, stage_16, stage_17,
  stage_18,
}

module _ (ctx : PacketType) (p : Properties) (valid : IsValid ctx p) where
  pub Step-auth_method :
      Step ctx
        (suc (prop_code prop_server_keep_alive))
        (stage_9 ctx p)
        (put_string put_text prop_auth_method ctx p.authentication_method)
        (suc (prop_code prop_auth_method))
        (stage_10 ctx p)
  unfolding read_property prop_code
  Step-auth_method = record {
    run = λ bytes.
        Reads-string ctx (suc (prop_code prop_server_keep_alive)) prop_auth_method put_text
          (λ s. validate_utf8 s ≡ ok tt) (λ v. record (stage_9 ctx p) { authentication_method = v })
          p.authentication_method bytes (omega arith) (λ x s fits h. rw (text-put_text x s fits h))
          valid.authentication_method;
  }

  pub Step-auth_data :
      Step ctx
        (suc (prop_code prop_auth_method))
        (stage_10 ctx p)
        (put_string put_binary prop_auth_data ctx p.authentication_data)
        (suc (prop_code prop_auth_data))
        (stage_11 ctx p)
  unfolding read_property prop_code
  Step-auth_data = record {
    run = λ bytes.
        Reads-string ctx (suc (prop_code prop_auth_method)) prop_auth_data put_binary (λ s. Unit)
          (λ v. record (stage_10 ctx p) { authentication_data = v }) p.authentication_data bytes
          (omega arith) (λ x s fits h. rw (binary-put_binary x s fits)) (λ _. tt);
  }

  pub Step-request_problem_info :
      Step ctx
        (suc (prop_code prop_auth_data))
        (stage_11 ctx p)
        (put_scalar put_byte prop_request_problem_info ctx p.request_problem_info)
        (suc (prop_code prop_request_problem_info))
        (stage_12 ctx p)
  unfolding read_property prop_code byte
  Step-request_problem_info = record {
    run = λ bytes.
        Reads-scalar ctx (suc (prop_code prop_auth_data)) prop_request_problem_info put_byte IsFlag
          (λ v. record (stage_11 ctx p) { request_problem_info = v }) p.request_problem_info bytes
          (omega arith) (λ x s h. rw (le→leb x 1 h)) valid.request_problem_info;
  }

  pub Step-will_delay_interval :
      Step ctx
        (suc (prop_code prop_request_problem_info))
        (stage_12 ctx p)
        (put_scalar put_uint32 prop_will_delay_interval ctx p.will_delay_interval)
        (suc (prop_code prop_will_delay_interval))
        (stage_13 ctx p)
  unfolding read_property prop_code
  Step-will_delay_interval = record {
    run = λ bytes.
        Reads-scalar ctx (suc (prop_code prop_request_problem_info)) prop_will_delay_interval
          put_uint32 IsUint32 (λ v. record (stage_12 ctx p) { will_delay_interval = v })
          p.will_delay_interval bytes (omega arith) (λ x s h. rw (uint32-put_uint32 x s h))
          valid.will_delay_interval;
  }

  pub Step-request_response :
      Step ctx
        (suc (prop_code prop_will_delay_interval))
        (stage_13 ctx p)
        (put_scalar put_byte prop_request_response ctx p.request_response_info)
        (suc (prop_code prop_request_response))
        (stage_14 ctx p)
  unfolding read_property prop_code byte
  Step-request_response = record {
    run = λ bytes.
        Reads-scalar ctx (suc (prop_code prop_will_delay_interval)) prop_request_response put_byte
          IsFlag (λ v. record (stage_13 ctx p) { request_response_info = v })
          p.request_response_info bytes (omega arith) (λ x s h. rw (le→leb x 1 h))
          valid.request_response_info;
  }

  pub Step-response_info :
      Step ctx
        (suc (prop_code prop_request_response))
        (stage_14 ctx p)
        (put_string put_text prop_response_info ctx p.response_information)
        (suc (prop_code prop_response_info))
        (stage_15 ctx p)
  unfolding read_property prop_code
  Step-response_info = record {
    run = λ bytes.
        Reads-string ctx (suc (prop_code prop_request_response)) prop_response_info put_text
          (λ s. validate_utf8 s ≡ ok tt) (λ v. record (stage_14 ctx p) { response_information = v })
          p.response_information bytes (omega arith) (λ x s fits h. rw (text-put_text x s fits h))
          valid.response_information;
  }

  pub Step-server_reference :
      Step ctx
        (suc (prop_code prop_response_info))
        (stage_15 ctx p)
        (put_string put_text prop_server_reference ctx p.server_reference)
        (suc (prop_code prop_server_reference))
        (stage_16 ctx p)
  unfolding read_property prop_code
  Step-server_reference = record {
    run = λ bytes.
        Reads-string ctx (suc (prop_code prop_response_info)) prop_server_reference put_text
          (λ s. validate_utf8 s ≡ ok tt) (λ v. record (stage_15 ctx p) { server_reference = v })
          p.server_reference bytes (omega arith) (λ x s fits h. rw (text-put_text x s fits h))
          valid.server_reference;
  }

  pub Step-reason_string :
      Step ctx
        (suc (prop_code prop_server_reference))
        (stage_16 ctx p)
        (put_string put_text prop_reason_string ctx p.reason_string)
        (suc (prop_code prop_reason_string))
        (stage_17 ctx p)
  unfolding read_property prop_code
  Step-reason_string = record {
    run = λ bytes.
        Reads-string ctx (suc (prop_code prop_server_reference)) prop_reason_string put_text
          (λ s. validate_utf8 s ≡ ok tt) (λ v. record (stage_16 ctx p) { reason_string = v })
          p.reason_string bytes (omega arith) (λ x s fits h. rw (text-put_text x s fits h))
          valid.reason_string;
  }

  pub Step-receive_maximum :
      Step ctx
        (suc (prop_code prop_reason_string))
        (stage_17 ctx p)
        (put_scalar put_uint16 prop_receive_maximum ctx p.receive_maximum)
        (suc (prop_code prop_receive_maximum))
        (stage_18 ctx p)
  unfolding read_property prop_code
  Step-receive_maximum = record {
    run = λ bytes.
        Reads-scalar ctx (suc (prop_code prop_reason_string)) prop_receive_maximum put_uint16
          IsPositiveUint16 (λ v. record (stage_17 ctx p) { receive_maximum = v }) p.receive_maximum
          bytes (omega arith) (λ x s h. rw (uint16-put_uint16 x s h.1, nonzero x h.0))
          valid.receive_maximum;
  }
