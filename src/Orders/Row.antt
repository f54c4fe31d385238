-- ===== src/Orders/Row.antt =====
-- src/orders.rs, `OrderRow`: a row of the table `orders` (migrations/0001_init.sql and later), as an
-- order and back.
use mathlib.Core.Option
use blitzpool_rental_proxy.Prelude.{Text, Option, none, some, if◌then◌else◌, ◌==◌, text_eq}
use blitzpool_rental_proxy.Prelude.Strings.{codes}
use blitzpool_rental_proxy.Prelude.Int.{ℤ, pos, as_u64}
use blitzpool_rental_proxy.Prelude.Float.{Float, nought}
use blitzpool_rental_proxy.Session.{UpstreamTarget}
use blitzpool_rental_proxy.Orders.{Order, OrderStatus, active, ended, cancelled}

pub record OrderRow (W : Type 0) : Type 0 where
  pub id : Text
  pub worker : Text
  pub target_url : Text
  pub target_user : Text
  pub target_password : Text
  pub target_authority : Option Text
  pub fallback_url : Option Text
  pub fallback_user : Option Text
  pub fallback_password : Option Text
  pub fallback_authority : Option Text
  pub created_ms : ℤ
  pub until_ms : ℤ
  pub status : Text
  pub ended_ms : ℤ
  pub delivered_work : W
  pub accepted_shares : ℤ
  pub submitted_shares : ℤ
  pub price_per_th_day : W
  pub budget : W

-- The three words of the column `status`.
abbrev pub active_word : Text
active_word = codes "active"

abbrev pub ended_word : Text
ended_word = codes "ended"

abbrev pub cancelled_word : Text
cancelled_word = codes "cancelled"

-- OrderStatus::from_db: any other word reads as active.
unfoldable pub from_db : Text → OrderStatus
from_db s = if s == ended_word then ended else if s == cancelled_word then cancelled else active

-- unwrap_or_default of a text
abbrev pub or_blank : Option Text → Text
or_blank none = codes ""
or_blank (some s) = s

module _ {W : Type 0} where
  fallback_of : OrderRow W → Option Text → Option UpstreamTarget
  fallback_of r none = none
  fallback_of r (some url) = some (record {
    url = url;
    user = or_blank r.fallback_user;
    password = or_blank r.fallback_password;
    authority_pubkey = r.fallback_authority;
  })

  unfoldable pub into_order : OrderRow W → Order W
  unfolding from_db fallback_of as_u64
  into_order r = record {
    id = r.id;
    worker = r.worker;
    target = record {
      url = r.target_url;
      user = r.target_user;
      password = r.target_password;
      authority_pubkey = r.target_authority;
    };
    fallback = fallback_of r r.fallback_url;
    created_ms = r.created_ms;
    until_ms = r.until_ms;
    status = from_db r.status;
    ended_ms = r.ended_ms;
    delivered_work = r.delivered_work;
    accepted_shares = as_u64 r.accepted_shares;
    submitted_shares = as_u64 r.submitted_shares;
    price_per_th_day = r.price_per_th_day;
    budget = r.budget;
  }

-- fallback.and_then(|f| f.authority_pubkey)
abbrev pub authority_of : Option UpstreamTarget → Option Text
authority_of none = none
authority_of (some t) = t.authority_pubkey

module _ {W : Type 0} ⦃f : Float W⦄ where
  -- The row that `create` inserts.
  unfoldable pub new_row :
      Text → ℤ → Text → UpstreamTarget → Option UpstreamTarget → ℤ → W → W → OrderRow W
  new_row id now worker target fallback until_ms price budget = record {
    id = id;
    worker = worker;
    target_url = target.url;
    target_user = target.user;
    target_password = target.password;
    target_authority = target.authority_pubkey;
    fallback_url = Option.map (λ t. t.url) fallback;
    fallback_user = Option.map (λ t. t.user) fallback;
    fallback_password = Option.map (λ t. t.password) fallback;
    fallback_authority = authority_of fallback;
    created_ms = now;
    until_ms = until_ms;
    status = active_word;
    ended_ms = pos 0;
    delivered_work = nought;
    accepted_shares = pos 0;
    submitted_shares = pos 0;
    price_per_th_day = price;
    budget = budget;
  }
