-- ===== src/Core.antt =====
-- The vocabulary of HTTP: src/libraries/rest/core/rest_core.hpp and rest_core.cpp.
-- A member of the type `NotDefaultConstructible<T>` is a value of `T` here; the class is in Wrapped.
pub mod Codes
pub mod Content
pub mod Wrapped
mod Tests
use just_queue_it.Base.{Bytes, Bool, true, false, ◌≡◌, ◌↔◌, codes, arith}
use just_queue_it.Base.Equality.{Eq}
use just_queue_it.Core.Codes.{Status}
use just_queue_it.Core.Content.{ContentType}

-- `Request::Method`
pub data Method : Type 0 where
  get post put delete patch head options : Method

abbrev pub method_eq : Method → Method → Bool
method_eq get get = true
method_eq post post = true
method_eq put put = true
method_eq delete delete = true
method_eq patch patch = true
method_eq head head = true
method_eq options options = true
method_eq _ _ = false

pub method_eq_iff : (a b : Method) → (method_eq a b ≡ true) ↔ (a ≡ b)
method_eq_iff get b = ground arith
method_eq_iff _ b = ground arith

instance abbrev pub method_equality : Eq Method
method_equality = record { beq = method_eq; beq_iff = method_eq_iff }

pub record Request : Type 0 where
  pub method : Method
  pub path : Bytes
  pub body : Bytes
  pub content_type : ContentType
  pub accept_content_type : ContentType

pub record Response : Type 0 where
  pub status_code : Status
  pub body : Bytes
  pub content_type : ContentType

-- A request that names no accepted type accepts the type that it has.
abbrev pub request_default : Method → Bytes → Bytes → ContentType → Request
request_default method path body content_type = record {
  method = method;
  path = path;
  body = body;
  content_type = content_type;
  accept_content_type = content_type;
}
