-- ===== src/Gateway/Discovery.antt =====
-- The handlers of gateway/service_discovery.go, on the registry of client/service_discovery.go.
pub mod Status
use fir_etcd.Prelude.{
  ltb, leb, ◌==◌, if◌then◌else◌, ◌>>=◌, ℤ, pos, negsuc, pos_part, ltb_ℤ, Bytes, Map, ℕ, zero, suc,
  ◌+◌, ◌-◌, ◌*◌, ◌/◌, ◌%◌, ◌^◌, Bool, true, false, not, ◌||◌, Option, none, some, List, [], ◌∷◌,
}
use fir_etcd.Client.Decimal.{max_int64, parse_uint, parse_digits}
use fir_etcd.Naming.{KvStore}
use fir_etcd.Naming.Services.{
  ServiceInfo, register_instance, deregister_instance, get_services, health_check, get_instance,
}
use fir_etcd.Gateway.{
  json, plain_text, Writer, new_writer, set_content_type, write_header, is_blank,
}

pub record RegisterServiceRequest : Type 0 where
  pub service_name : Bytes
  pub service_id : Bytes
  pub endpoint : Bytes
  pub ttl : ℤ
  pub metadata : Map Bytes Bytes

-- The three responses, as one type. `rejected` is the text of http.Error.
pub data Response : Type 0 where
  rejected : Response
  failed : Response
  registered : (lease_id : ℤ) → Response
  deregistered : Response
  service_list : List ServiceInfo → Response
  health_map : Map Bytes Bool → Response
  kept_alive : Response

-- The writer at the end of a handler, with the response that it encodes into it.
pub record ServiceAnswer : Type 0 where
  pub writer : Writer
  pub response : Response

pub data Method : Type 0 where
  method_get : Method
  method_post : Method
  method_delete : Method
  other_method : Method

abbrev pub is_get : Method → Bool
is_get method_get = true
is_get _ = false

abbrev pub is_post : Method → Bool
is_post method_post = true
is_post _ = false

abbrev pub is_delete : Method → Bool
is_delete method_delete = true
is_delete _ = false

-- http.Error: the header before the status.
unfoldable pub http_error : ℕ → ServiceAnswer
unfolding set_content_type write_header
http_error status = record {
  writer = write_header status (set_content_type plain_text new_writer);
  response = rejected;
}

-- The end of each handler: the status before the header.
unfoldable pub respond : Option Response → ServiceAnswer
unfolding set_content_type write_header
respond none = record {
  writer = set_content_type json (write_header 500 new_writer);
  response = failed;
}
respond (some r) = record {
  writer = set_content_type json (write_header 200 new_writer);
  response = r;
}

-- strconv.ParseInt(s, 10, 64) without an error.
unfoldable pub parses : Bytes → Bool
unfolding parse_uint
parses [] = false
parses (c ∷ cs) = elim (parse_digits (if (c == 45) || (c == 43) then cs else c ∷ cs)) [
  | none ↦ false
  | some n ↦ if c == 45 then leb n (max_int64 + 1) else leb n max_int64
]

-- A request that RegisterRoutes hands to one of these handlers.
pub data ServiceRequest : Type 0 where
  register_request : Method → Option RegisterServiceRequest → ServiceRequest
  deregister_request : Method → Bytes → Bytes → ServiceRequest
  services_request : Method → Bytes → ServiceRequest
  health_request : Method → Bytes → ServiceRequest
  balance_request : Method → Bytes → ℕ → ServiceRequest
  keep_alive_request : Method → Bytes → ServiceRequest

abbrev pub minus : ℕ → ℤ
minus zero = pos 0
minus (suc n) = negsuc n

-- time.Duration(ttl) * time.Second as an int64 that wraps around, in milliseconds.
unfoldable pub seconds_ms : ℕ → ℤ
seconds_ms ttl =
    let w = ttl * 1000000000 % 2 ^ 64 in
    if ltb w (2 ^ 63) then pos (w / 1000000) else minus ((2 ^ 64 - w) / 1000000)

-- A time to live of zero or less is 30 seconds.
unfoldable pub ttl_ms : ℤ → ℤ
unfolding seconds_ms
ttl_ms ttl = if ltb_ℤ (pos 0) ttl then seconds_ms (pos_part ttl) else pos 30000

module _ (ck : KvStore) (marshal : ServiceInfo → Option Bytes)
    (unmarshal : Bytes → Option ServiceInfo) where
  abbrev pub registered_of : Option ℤ → Option Response
  registered_of none = none
  registered_of (some lease_id) = some (registered lease_id)

  -- `body` is the decoded request, `none` if it does not decode.
  unfoldable pub register_service_handler :
      ck.S → Method → Option RegisterServiceRequest → ck.S × ServiceAnswer
  unfolding http_error respond register_instance ttl_ms
  register_service_handler s m body = if not (is_post m) then (s, http_error 405) else elim body [
    | none ↦ (s, http_error 400)
    | some req ↦
        if is_blank req.service_name || (is_blank req.service_id || is_blank req.endpoint)
        then (s, http_error 400)
        else let (s', r) =
            register_instance ck marshal unmarshal s req.service_name req.service_id req.endpoint
              (ttl_ms req.ttl) req.metadata in
          (s', respond (registered_of r))
  ]

  unfoldable pub deregister_service_handler : ck.S → Method → Bytes → Bytes → ck.S × ServiceAnswer
  unfolding http_error respond deregister_instance
  deregister_service_handler s m service_name service_id =
      if not (is_delete m)
      then (s, http_error 405)
      else if is_blank service_name || is_blank service_id
      then (s, http_error 400)
      else let (s', ok) = deregister_instance ck marshal unmarshal s service_name service_id in
        (s', respond (if ok then some deregistered else none))

  -- The checks that the three reads share.
  unfoldable pub reading : ck.S → Method → Bytes → Option Response → ck.S × ServiceAnswer
  unfolding http_error respond
  reading s m service_name r =
      if not (is_get m)
      then (s, http_error 405)
      else if is_blank service_name
      then (s, http_error 400)
      else (s, respond r)

  unfoldable pub get_services_handler : ck.S → Method → Bytes → ck.S × ServiceAnswer
  unfolding reading get_services
  get_services_handler s m service_name =
      reading s m service_name
        (get_services ck marshal unmarshal s service_name >>= λ l. some (service_list l))

  unfoldable pub health_check_handler : ck.S → Method → Bytes → ck.S × ServiceAnswer
  unfolding reading health_check
  health_check_handler s m service_name =
      reading s m service_name
        (health_check ck marshal unmarshal s service_name >>= λ h. some (health_map h))

  unfoldable pub load_balancer_handler : ck.S → Method → Bytes → ℕ → ck.S × ServiceAnswer
  unfolding reading get_instance
  load_balancer_handler s m service_name now =
      reading s m service_name
        (get_instance ck marshal unmarshal s service_name now >>= λ i. some (service_list (i ∷ [])))

  -- KeepAlive of the registry starts a goroutine and returns no error.
  unfoldable pub keep_alive_handler : ck.S → Method → Bytes → ck.S × ServiceAnswer
  unfolding http_error respond parses
  keep_alive_handler s m lease_id =
      if not (is_post m)
      then (s, http_error 405)
      else if not (parses lease_id)
      then (s, http_error 400)
      else (s, respond (some kept_alive))

  unfoldable pub serve_service : ck.S → ServiceRequest → ck.S × ServiceAnswer
  unfolding register_service_handler deregister_service_handler get_services_handler
      health_check_handler load_balancer_handler keep_alive_handler
  serve_service s (register_request m body) = register_service_handler s m body
  serve_service s (deregister_request m service_name service_id) =
      deregister_service_handler s m service_name service_id
  serve_service s (services_request m service_name) = get_services_handler s m service_name
  serve_service s (health_request m service_name) = health_check_handler s m service_name
  serve_service s (balance_request m service_name now) = load_balancer_handler s m service_name now
  serve_service s (keep_alive_request m lease_id) = keep_alive_handler s m lease_id
