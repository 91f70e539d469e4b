-- ===== src/Json.antt =====
-- JSON values as `JSON.parse` and `Response.json` give them: what web/src/api/client.ts reads and
-- web/src/components/ops/DeliveryDetail.tsx prints. An object keeps its members in order.
pub mod Value
pub mod Laws
pub mod Print
