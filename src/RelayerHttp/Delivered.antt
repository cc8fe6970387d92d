-- ===== src/RelayerHttp/Delivered.antt =====
-- What the handlers of packages/relayer/src/routes make of a body that packages/sdk/src/relayer-http.ts
-- posts.
