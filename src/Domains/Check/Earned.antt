-- ===== src/Domains/Check/Earned.antt =====
-- The app's check brings a hostname live only when Cloudflare says so and the probe reached the claim.
