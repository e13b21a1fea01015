-- ===== src/Chat/Handler/Reasons.antt =====
-- Whatever the chat route refuses a request for is counted under its own reason.
